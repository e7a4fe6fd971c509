-- ===== src/Scheduler/Reaper.antt =====
-- internal/scheduler/reaper.go: jobs whose lease has run out are reported lost, and executions that
-- were left open are closed.
use job_scheduling.Base.{
  ℕ, ◌+◌, ◌*◌, max, Bool, false, not, ◌&&◌, Option, none, some, List, [], ◌∷◌, ltb, ◌==◌, select,
  sort_by, take, length, update_all, elem, map, exists,
}
use job_scheduling.Store.{Job, Execution, Lease, Outcome, Db, DbError, is_active, is_set}
use job_scheduling.Jobs.Start.{close_as}
use job_scheduling.Jobs.Lease.{Answer, value, error}
use job_scheduling.Jobs.Failure.{Failure, report_failure}

-- A lease that has run out, of a job that is claimed or running.
unfoldable pub is_expired : ℕ → List Job → Lease → Bool
is_expired now jobs l =
    ltb l.expires_at now && exists (λ j. j.id == l.job && is_active j.status) jobs

abbrev pub by_expiry : Lease → Lease → Bool
by_expiry a b = ltb a.expires_at b.expires_at

unfoldable pub expired : ℕ → ℕ → Db → List ℕ
unfolding is_expired
expired now limit db =
    map (λ l. l.job) (take limit (sort_by by_expiry (select (is_expired now db.jobs) db.leases)))

abbrev pub lost_failure : Failure
lost_failure = record {
  outcome = Outcome.lost;
  error_class = none;
  error_message = none;
  permanent = false;
}

-- reportLostSQL: no fence is asked for.
unfoldable pub report_lost : (ℕ → ℕ) → ℕ → ℕ → Db → Option ℕ × Db
unfolding report_failure
report_lost draw now job db = report_failure draw now job none lost_failure db

-- The loop of Reap makes a transaction for each job, at a time of its own, which may fail.
pub record Turn : Type 0 where
  pub now : ℕ
  pub fault : Option DbError

abbrev pub bump : Option ℕ → ℕ → ℕ
bump none n = n
bump (some q) n = n + 1

-- The number reaped, with the error that stopped the loop.
unfoldable pub reap_each : (ℕ → ℕ) → (ℕ → Turn) → List ℕ → ℕ → Db → ℕ × Option DbError × Db
unfolding report_lost
reap_each draw turn [] reaped db = (reaped, none, db)
reap_each draw turn (job ∷ rest) reaped db = elim (turn job).fault [
  | some e ↦ (reaped, some e, db)
  | none ↦
      let (got, db') = report_lost draw (turn job).now job db in
      reap_each draw turn rest (bump got reaped) db'
]

-- Reap.
unfoldable pub reap : Option DbError → (ℕ → ℕ) → (ℕ → Turn) → ℕ → ℕ → Db → ℕ × Option DbError × Db
unfolding expired reap_each
reap fault draw turn now limit db = elim fault [
  | some e ↦ (0, some e, db)
  | none ↦ reap_each draw turn (expired now limit db) 0 db
]

-- An execution left open by a job that is neither claimed nor running, twice its timeout ago and
-- two minutes at least.
unfoldable pub is_orphan : ℕ → List Job → Execution → Bool
is_orphan now jobs x =
    not (is_set x.finished_at)
    && exists
        (λ j.
          j.id == x.job
          && not (is_active j.status)
          && ltb (x.started_at + max (j.timeout_ms * 1000) 60000000 * 2) now)
        jobs

-- SweepOrphanExecutions, with the number closed. Its `limit` stands without an order.
unfoldable pub sweep : Option DbError → ℕ → ℕ → Db → Answer ℕ × Db
unfolding is_orphan
sweep fault now limit db = elim fault [
  | some e ↦ (error e, db)
  | none ↦
      let ids = map (λ x. x.id) (take limit (select (is_orphan now db.jobs) db.executions)) in
      let swept = λ (x : Execution). elem x.id ids && is_orphan now db.jobs x in
      (
        value (length (select swept db.executions)),
        record db { executions = update_all swept (close_as Outcome.lost now) db.executions },
      )
]
