-- ===== src/Api/Queues/Removal.antt =====
-- deleteQueue of internal/api/queues.go, with the rows that its foreign keys take along
-- (migrations/002_core.sql, 005_side_tables.sql, 020_dependencies.sql, 027_shards.sql).
use job_scheduling.Base.{
  ℕ, ◌≡◌, refl, ◌∙◌, Bool, false, not, ◌&&◌, ◌||◌, some, List, [], ◌∷◌, arith, ◌==◌, find, exists,
  select, update_all, delete_all, All-select, Bool-cases, inl, inr,
}
use job_scheduling.Store.{Job, Queue, Schedule, Shard, Db, is_shard}
use job_scheduling.Jobs.Admit.{is_queue}
use job_scheduling.Scheduler.Cron.{same_id}
use job_scheduling.Api.Schedules.{without_schedule}
use job_scheduling.Api.Queues.{of_queue_row}
use job_scheduling.Api.Queues.Counters.{Spread}

-- Is the job in the queue?
unfoldable pub job_in : ℕ → List Job → ℕ → Bool
job_in q jobs id = exists (λ j. j.id == id && j.queue == q) jobs

-- Is the job of a schedule of the queue?
unfoldable pub scheduled_in : ℕ → List Schedule → Job → Bool
scheduled_in q schedules j = exists (λ d. same_id j.schedule d.id && d.queue == q) schedules

-- deleteQueue. The executions, dead letters and events of its jobs have no foreign key, and stay.
unfoldable pub delete_queue : ℕ → Db → Db
unfolding job_in scheduled_in
delete_queue id db = record db {
  queues = delete_all (is_queue id) db.queues;
  shards = delete_all (of_queue_row id) db.shards;
  jobs =
      update_all (scheduled_in id db.schedules) without_schedule
        (delete_all (λ j. j.queue == id) db.jobs);
  leases = delete_all (λ l. job_in id db.jobs l.job) db.leases;
  dependencies =
      delete_all (λ d. job_in id db.jobs d.parent || job_in id db.jobs d.child) db.dependencies;
  schedules = delete_all (λ d. d.queue == id) db.schedules;
  stats = delete_all (λ s. s.queue == id) db.stats;
  idempotency_keys = delete_all (λ k. k.queue == id) db.idempotency_keys;
}

exists-delete_all_other :
    (id p s : ℕ) (rows : List Shard)
    → (id == p) ≡ false
    → exists (is_shard p s) (delete_all (of_queue_row id) rows) ≡ exists (is_shard p s) rows
unfolding exists delete_all select
exists-delete_all_other id p s [] h = refl
exists-delete_all_other id p s (r ∷ rows) h = ground (arith, exists-delete_all_other id p s rows)

-- A queue that is found after is another, and was found before.
pub found_before :
    (id p : ℕ) (q : Queue) (qs : List Queue)
    → find (is_queue p) (delete_all (is_queue id) qs) ≡ some q
    → (find (is_queue p) qs ≡ some q) × ((id == p) ≡ false)
unfolding find delete_all select
found_before id p q [] h = ground arith
found_before id p q (x ∷ qs) h = elim (Bool-cases (is_queue id x)) [
  | inl gone ↦
      let (found, other) = found_before id p q qs (ground arith) in
      let off : is_queue p x ≡ false = ground arith in (rw off found, other)
  | inr stays ↦ elim (Bool-cases (is_queue p x)) [
    | inl here ↦ (ground arith, ground arith)
    | inr off ↦ let (found, other) = found_before id p q qs (ground arith) in (rw off found, other)
  ]
]

pub delete_all-Spread :
    (id : ℕ) (q : Queue) (rows : List Shard)
    → (id == q.id) ≡ false
    → Spread q rows
    → Spread q (delete_all (of_queue_row id) rows)
unfolding delete_all
delete_all-Spread id q rows h (there, capped) = (
  λ s. exists-delete_all_other id q.id s rows h ∙ there s,
  All-select _ (λ r. not (of_queue_row id r)) rows capped,
)
