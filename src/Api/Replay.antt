-- ===== src/Api/Replay.antt =====
-- The dead letter queue: replayJob and replayQueue of internal/api/dlq.go, and fl.replay_dead of
-- migrations/025_bulk_replay.sql.
use job_scheduling.Base.{
  ℕ, ◌+◌, ◌-◌, ◌*◌, ◌/◌, min, Bool, not, ◌&&◌, ◌||◌, Option, none, some, List, [], ◌∷◌, ◌++◌, ltb,
  ◌==◌, if◌then◌else◌, find, modify, update_all, select, exists, elem, sort_by, take, count, map,
}
use job_scheduling.Store.{
  Job, Db, DeadLetter, Queue, queued, cancelled, is_dead, is_queued, is_set, same_status,
  EventPayload, job_replayed,
}
use job_scheduling.Jobs.Start.{event}
use job_scheduling.Jobs.Claim.{has_id}
use job_scheduling.Jobs.Deps.{descendants}
use job_scheduling.Jobs.Admit.{is_queue}
use job_scheduling.Api.Problem.{ApiReply, done, refused, bad_request, conflict}

abbrev pub is_cancelled : Job → Bool
is_cancelled j = same_status j.status cancelled

-- cancelledKinSQL: is a descendant of the job cancelled?
unfoldable pub has_cancelled_kin : ℕ → Db → Bool
unfolding descendants
has_cancelled_kin id db =
    exists (λ j. elem j.id (descendants id db.dependencies) && is_cancelled j) db.jobs

-- `where id = $1 and status = 'dead_letter'`.
unfoldable pub replayable : ℕ → Job → Bool
replayable id j = has_id id j && is_dead j.status

unfoldable pub replay_row : ℕ → Job → Job
replay_row at j = record j {
  status = queued;
  attempt_count = 0;
  replay_generation = j.replay_generation + 1;
  run_at = at;
  finished_at = none;
  worker = none;
}

abbrev pub mark_replayed : ℕ → ℕ → DeadLetter → DeadLetter
mark_replayed now actor d = record d { replayed_at = some now; replayed_by = some actor }

unfoldable pub replay_found : ℕ → ℕ → ℕ → Option Job → Db → ApiReply ℕ × Db
unfolding replayable replay_row
replay_found now actor id none db = (refused (conflict "job is not in the dead letter queue"), db)
replay_found now actor id (some j) db = (
  done (j.replay_generation + 1),
  record db {
    jobs = modify (replayable id) (replay_row now) db.jobs;
    dead_letters = update_all (λ d. d.job == id) (mark_replayed now actor) db.dead_letters;
    events =
        db.events
        ++ event job_replayed id j.project (EventPayload.generation (j.replay_generation + 1)) ∷ [];
  },
)

-- replayJob: the new replay generation.
unfoldable pub replay_job : ℕ → ℕ → ℕ → Db → ApiReply ℕ × Db
unfolding has_cancelled_kin replay_found
replay_job now actor id db =
    if has_cancelled_kin id db
    then (refused (conflict "cancelled descendants would be revived"), db)
    else replay_found now actor id (find (replayable id) db.jobs) db

-- How many jobs the depth cap of the queue leaves room for.
unfoldable pub replay_room : ℕ → Queue → List Job → ℕ
replay_room most qr jobs = elim qr.max_depth [
  | none ↦ most
  | some depth ↦ min most (depth - count (λ j. j.queue == qr.id && is_queued j.status) jobs)
]

-- A child, not just a descendant, that is cancelled keeps a job out of a bulk replay.
abbrev pub has_cancelled_child : ℕ → Db → Bool
has_cancelled_child id db =
    exists (λ d. d.parent == id && exists (λ j. j.id == d.child && is_cancelled j) db.jobs)
      db.dependencies

unfoldable pub may_replay : ℕ → Db → DeadLetter → Bool
may_replay q db d =
    d.queue == q
    && not (is_set d.replayed_at)
    && exists (λ j. j.id == d.job && is_dead j.status) db.jobs
    && not (has_cancelled_child d.job db)

abbrev pub by_death : DeadLetter → DeadLetter → Bool
by_death a b = ltb a.dead_at b.dead_at

unfoldable pub replay_ids : ℕ → ℕ → Db → List ℕ
unfolding may_replay
replay_ids q room db =
    map (λ d. d.job) (take room (sort_by by_death (select (may_replay q db) db.dead_letters)))

-- The k-th job in the order of ids runs k / per_sec seconds from now. `per_sec` counts thousandths.
abbrev pub spread_at : ℕ → ℕ → ℕ → ℕ
spread_at now per_sec k = if ltb 0 per_sec then now + k * 1000000000 / per_sec else now

unfoldable pub replay_each : ℕ → ℕ → ℕ → List ℕ → List Job → List Job
unfolding replayable replay_row
replay_each now per_sec k [] jobs = jobs
replay_each now per_sec k (i ∷ is) jobs =
    replay_each now per_sec (k + 1) is
      (modify (replayable i) (replay_row (spread_at now per_sec k)) jobs)

unfoldable pub bulk_of : ℕ → ℕ → ℕ → Queue → List ℕ → Db → List ℕ × Db
unfolding replay_each
bulk_of now actor per_sec qr ids db = (
  ids,
  record db {
    jobs = replay_each now per_sec 0 (sort_by ltb ids) db.jobs;
    dead_letters = update_all (λ d. elem d.job ids) (mark_replayed now actor) db.dead_letters;
    events =
        db.events ++ map (λ i. event job_replayed i qr.project EventPayload.bulk) (sort_by ltb ids);
  },
)

unfoldable pub bulk_found : ℕ → ℕ → ℕ → ℕ → Option Queue → Db → List ℕ × Db
unfolding replay_room replay_ids bulk_of
bulk_found now actor most per_sec none db = ([], db)
bulk_found now actor most per_sec (some qr) db =
    bulk_of now actor per_sec qr (replay_ids qr.id (replay_room most qr db.jobs) db) db

-- fl.replay_dead: the jobs replayed.
unfoldable pub replay_dead : ℕ → ℕ → ℕ → ℕ → ℕ → Db → List ℕ × Db
unfolding bulk_found
replay_dead now actor q most per_sec db =
    bulk_found now actor most per_sec (find (is_queue q) db.queues) db

abbrev pub or_default : Option ℕ → ℕ → ℕ
or_default none d = d
or_default (some n) d = n

-- The checks of replayQueue; a negative limit or rate is refused as 0 or earlier, by `decode`.
unfoldable pub replay_queue : ℕ → ℕ → ℕ → Option ℕ → Option ℕ → Db → ApiReply (List ℕ) × Db
unfolding replay_dead
replay_queue now actor q limit rate db =
    let most = or_default limit 100 in
    if most == 0 || ltb 1000 most
    then (refused (bad_request "limit must be between 1 and 1000"), db)
    else let (ids, db') = replay_dead now actor q most (or_default rate 0) db in (done ids, db')
