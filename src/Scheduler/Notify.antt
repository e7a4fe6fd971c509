-- ===== src/Scheduler/Notify.antt =====
-- internal/scheduler/notify.go: listeners are told when the tail of the events has moved.
use job_scheduling.Base.{ℕ, Bool, true, false, Option, none, some, leb, if◌then◌else◌}
use job_scheduling.Store.{DbError}

-- The head that Notify returns, its error, and whether a notification went out.
pub record Noticed : Type 0 where
  pub head : ℕ
  pub error : Option DbError
  pub sent : Bool

-- `head` is the answer to eventHeadSQL or its error, `send` what becomes of pg_notify.
pub data Head : Type 0 where
  at : ℕ → Head
  unread : DbError → Head

unfoldable pub notify : Head → Option DbError → ℕ → Noticed
notify (unread e) send since = record { head = since; error = some e; sent = false }
notify (at head) send since =
    if leb head since then record { head = since; error = none; sent = false } else elim send [
      | none ↦ record { head = head; error = none; sent = true }
      | some e ↦ record { head = since; error = some e; sent = false }
    ]
