-- ===== src/Jobs/Admit.antt =====
-- fl.queue_admit of migrations/027_shards.sql, which `admit` of internal/jobs/claim.go calls: how
-- many of the wanted slots a queue grants, and on which shard. `rot` is the backend's pid.
use job_scheduling.Base.{
  ℕ, ◌+◌, ◌-◌, ◌*◌, ◌/◌, ◌%◌, min, Bool, false, Option, none, some, List, [], ◌∷◌, ltb, ◌==◌,
  if◌then◌else◌, find, modify, select, sort_by,
}
use job_scheduling.Store.{Queue, Shard, Db, BreakerState, closed, opened, half_open, is_shard}

abbrev pub is_queue : ℕ → Queue → Bool
is_queue q r = r.id == q

-- max_concurrency / shards, and one more for the first max_concurrency % shards shards.
unfoldable pub shard_cap : Queue → ℕ → ℕ
shard_cap qr s =
    qr.max_concurrency / qr.shards + (if ltb s (qr.max_concurrency % qr.shards) then 1 else 0)

abbrev pub open_until : ℕ → Option ℕ → ℕ
open_until now none = now
open_until now (some t) = t

-- An open breaker past its deadline lets one probe through.
unfoldable pub admit_half_open : Queue → Option (Queue × ℕ)
admit_half_open qr = if qr.breaker_probe_budget == 0 then none else some (qr, 1)

unfoldable pub gate_on : BreakerState → ℕ → ℕ → Queue → Option (Queue × ℕ)
unfolding admit_half_open
gate_on closed now want qr = some (qr, want)
gate_on opened now want qr =
    if ltb now (open_until now qr.breaker_open_until)
    then none
    else admit_half_open (record qr { breaker_state = half_open; breaker_probe_budget = 1 })
gate_on half_open now want qr = admit_half_open qr

-- The breaker's part: the queue row as it leaves it, with the slots still wanted, or a refusal.
unfoldable pub gate : ℕ → ℕ → Queue → Option (Queue × ℕ)
unfolding gate_on
gate now want qr = gate_on qr.breaker_state now want qr

-- The tokens of a shard at `now`, in millionths, at most its share of the burst.
unfoldable pub refilled : ℕ → Queue → Shard → ℕ
refilled now qr s =
    min (qr.rl_burst / qr.shards)
      (s.rl_tokens + (now - s.rl_refilled_at) * (qr.rl_limit_per_sec / qr.shards) / 1000000)

-- least(want, greatest(cap - in_flight, 0), tokens).
unfoldable pub slots_for : ℕ → ℕ → Queue → Shard → ℕ
unfolding shard_cap refilled
slots_for now want qr s = min want (
    min (shard_cap qr s.shard - s.in_flight)
      (if qr.rl_limit_per_sec == 0 then want else refilled now qr s / 1000000))

unfoldable pub take_slots : ℕ → Queue → ℕ → Shard → Shard
unfolding refilled
take_slots now qr slots s =
    if qr.rl_limit_per_sec == 0 then record s { in_flight = s.in_flight + slots } else record s {
      in_flight = s.in_flight + slots;
      rl_tokens = refilled now qr s - slots * 1000000;
      rl_refilled_at = now;
    }

unfoldable pub spend_probe : BreakerState → ℕ → Queue → Queue
spend_probe closed slots qr = qr
spend_probe _ slots qr = record qr { breaker_probe_budget = qr.breaker_probe_budget - slots }

abbrev pub put_queue : Queue → List Queue → List Queue
put_queue qr = modify (is_queue qr.id) (λ _. qr)

-- The chosen shard's turn, with its row as the lock finds it.
unfoldable pub grant : ℕ → ℕ → Queue → ℕ → Option Shard → Db → ℕ × ℕ × Db
unfolding slots_for take_slots spend_probe
grant now want qr sh none db = (0, sh, db)
grant now want qr sh (some s) db =
    let slots = slots_for now want qr s in
    if slots == 0 then (0, sh, db) else (
      slots,
      sh,
      record db {
        shards = modify (is_shard qr.id sh) (take_slots now qr slots) db.shards;
        queues = put_queue (spend_probe qr.breaker_state slots qr) db.queues;
      },
    )

-- A shard of the queue with room.
unfoldable pub has_room : Queue → Shard → Bool
unfolding shard_cap
has_room qr s = if s.queue == qr.id then ltb s.in_flight (shard_cap qr s.shard) else false

abbrev pub rotated : ℕ → Queue → Shard → Shard → Bool
rotated rot qr a b = ltb ((a.shard + rot) % qr.shards) ((b.shard + rot) % qr.shards)

unfoldable pub grant_first : List Shard → ℕ → ℕ → Queue → Db → ℕ × ℕ × Db
unfolding grant
grant_first [] now want qr db = (0, 0, db)
grant_first (s ∷ _) now want qr db =
    grant now want qr s.shard (find (is_shard qr.id s.shard) db.shards) db

unfoldable pub admit_gated : ℕ → ℕ → Option (Queue × ℕ) → Db → ℕ × ℕ × Db
unfolding has_room grant_first
admit_gated now rot none db = (0, 0, db)
admit_gated now rot (some (qr, want)) db =
    grant_first (sort_by (rotated rot qr) (select (has_room qr) db.shards)) now want qr
      (record db { queues = put_queue qr db.queues })

unfoldable pub admit_found : ℕ → ℕ → ℕ → Option Queue → Db → ℕ × ℕ × Db
unfolding admit_gated gate
admit_found now rot want none db = (0, 0, db)
admit_found now rot want (some qr) db =
    if qr.paused then (0, 0, db) else admit_gated now rot (gate now want qr) db

-- The slots granted, their shard, and the database after.
unfoldable pub queue_admit : ℕ → ℕ → ℕ → ℕ → Db → ℕ × ℕ × Db
unfolding admit_found
queue_admit now rot q want db = admit_found now rot want (find (is_queue q) db.queues) db
