-- ===== src/System/Batches.antt =====
-- The transactions that change many jobs: a batch of completions, a bulk replay, a schedule's tick.
use job_scheduling.Base.{
  ℕ, ◌+◌, ◌≡◌, refl, ◌∙◌, Option, none, some, List, [], ◌∷◌, ◌++◌, arith, count, find, inl, inr,
  find_passes, Option-cases, ltb, sort_by,
}
use job_scheduling.Store.{Job, Shard, Db, Dependency, Schedule, Queue}
use job_scheduling.Jobs.Slots.{active, queue_release}
use job_scheduling.Jobs.Slots.Reports.{
  CoveredBy, IsCovered, active-modify-release, active-finish_dependents,
}
use job_scheduling.Jobs.Deps.{woken}
use job_scheduling.Jobs.Success.{completable, complete_row}
use job_scheduling.Jobs.Admit.{is_queue}
use job_scheduling.Jobs.Batch.{
  Done, Completed, complete_one, complete_rows, finish_each, release_each, batch_effects,
  after_batch, report_success_batch, job_ids,
}
use job_scheduling.Scheduler.Cron.{fire, fire_found, fire_plan, insert_tick, Plan, plan, max_rounds}
use job_scheduling.Api.Replay.{
  replayable, replay_row, replay_each, replay_dead, spread_at, bulk_found, bulk_of, replay_ids,
  replay_room,
}
use job_scheduling.System.Quiet.{SameActive, SameActive-modify, IsCovered_same}

replay_each-SameActive :
    (now per_sec k : ℕ) (is : List ℕ) (jobs : List Job)
    → SameActive jobs (replay_each now per_sec k is jobs)
unfolding replay_each
replay_each-SameActive now per_sec k [] jobs q s = refl
replay_each-SameActive now per_sec k (i ∷ is) jobs q s =
    replay_each-SameActive now per_sec (k + 1) is _ q s
    ∙ SameActive-modify (replayable i) (replay_row (spread_at now per_sec k))
        (λ q s a h. unfold replayable replay_row in ground arith) jobs q s

module _ (limit reserved : ℕ → ℕ → ℕ) where
  pub replay_dead-IsCovered :
      (now actor q most per_sec : ℕ) (db : Db)
      → IsCovered limit reserved db
      → IsCovered limit reserved (replay_dead now actor q most per_sec db).1
  unfolding replay_dead bulk_of
  replay_dead-IsCovered now actor q most per_sec db c =
      elim (Option-cases (find (is_queue q) db.queues)) [
        | inl e ↦ rw (e, bulk_found) c
        | inr (qr, e) ↦
            rw (e, bulk_found)
              (IsCovered_same limit reserved db.jobs _ db.shards
                (replay_each-SameActive now per_sec 0
                  (sort_by ltb (replay_ids qr.id (replay_room most qr db.jobs) db)) db.jobs)
                c)
      ]

  fire_plan-IsCovered :
      (now fresh : ℕ) (qr : Queue) (d : Schedule) (p : Plan) (db : Db)
      → IsCovered limit reserved db
      → IsCovered limit reserved (fire_plan now fresh qr d p db).1
  unfolding fire_plan insert_tick
  fire_plan-IsCovered now fresh qr d p db c q s = unfold active count in ground (arith, c q s)

  -- A tick's new job is queued, and holds nothing.
  pub fire-IsCovered :
      (next : Schedule → ℕ → Option ℕ) (now fresh : ℕ) (d : Schedule) (o : Option Queue) (db : Db)
      → IsCovered limit reserved db
      → IsCovered limit reserved (fire next now fresh d o db).1
  unfolding fire
  fire-IsCovered next now fresh d none db c = c
  fire-IsCovered next now fresh d (some qr) db c =
      elim (Option-cases (plan max_rounds now (next d) d.catchup_policy d.next_run_at)) [
        | inl e ↦ rw (e, fire_found) c
        | inr (p, e) ↦ rw (e, fire_found) (fire_plan-IsCovered now fresh qr d p db c)
      ]

  finish_each-SameActive :
      (now : ℕ) (deps : List Dependency) (is woke : List ℕ) (jobs : List Job)
      → SameActive jobs (finish_each now deps is (woke, jobs)).1
  unfolding finish_each
  finish_each-SameActive now deps [] woke jobs q s = refl
  finish_each-SameActive now deps (i ∷ is) woke jobs q s =
      finish_each-SameActive now deps is (woke ++ woken i deps jobs) _ q s
      ∙ active-finish_dependents now i q s deps jobs

  release_each-append :
      (cs ds : List Completed) (shards : List Shard)
      → release_each (cs ++ ds) shards ≡ release_each ds (release_each cs shards)
  unfolding release_each
  release_each-append [] ds shards = refl
  release_each-append (c ∷ cs) ds shards =
      release_each-append cs ds (queue_release c.row.queue c.row.shard 1 shards)

  complete_one-CoveredBy :
      (now : ℕ) (d : Done) (o : Option Job) (out : List Completed) (jobs : List Job)
      (shards : List Shard)
      → find (completable d.job d.fence) jobs ≡ o
      → CoveredBy limit reserved jobs (release_each out shards)
      → let (out', jobs') = complete_one now d o (out, jobs) in
        CoveredBy limit reserved jobs' (release_each out' shards)
  unfolding complete_one
  complete_one-CoveredBy now d none out jobs shards e c = c
  complete_one-CoveredBy now d (some j) out jobs shards e c = rw release_each-append λ q s.
      unfold release_each in
      active-modify-release (completable d.job d.fence) (complete_row now) j jobs e
        (unfold completable in ground (arith, find_passes (completable d.job d.fence) jobs j e))
        (unfold complete_row in refl) q s (limit q s) (reserved q s) (release_each out shards)
        (c q s)

  complete_rows-CoveredBy :
      (now : ℕ) (ds : List Done) (s : List Completed × List Job) (shards : List Shard)
      → CoveredBy limit reserved s.1 (release_each s.0 shards)
      → let (out', jobs') = complete_rows now ds s in
        CoveredBy limit reserved jobs' (release_each out' shards)
  unfolding complete_rows
  complete_rows-CoveredBy now [] s shards c = c
  complete_rows-CoveredBy now (d ∷ ds) s shards c =
      complete_rows-CoveredBy now ds _ shards (complete_one-CoveredBy now d _ s.0 s.1 shards refl c)

  after_batch-IsCovered :
      (now : ℕ) (out : List Completed) (jobs : List Job) (db : Db)
      → CoveredBy limit reserved jobs (release_each out db.shards)
      → IsCovered limit reserved db
      → IsCovered limit reserved (after_batch now (out, jobs) db).1
  unfolding after_batch batch_effects
  after_batch-IsCovered now [] jobs db c d = d
  after_batch-IsCovered now (x ∷ xs) jobs db c d =
      IsCovered_same limit reserved jobs _ (release_each (x ∷ xs) db.shards)
        (finish_each-SameActive now db.dependencies (sort_by ltb (job_ids (x ∷ xs))) [] jobs) c

  pub report_success_batch-IsCovered :
      (now : ℕ) (ds : List Done) (db : Db)
      → IsCovered limit reserved db
      → IsCovered limit reserved (report_success_batch now ds db).1
  unfolding report_success_batch
  report_success_batch-IsCovered now ds db c =
      let (out, jobs') = complete_rows now ds ([], db.jobs) in
      after_batch-IsCovered now out jobs' db
        (complete_rows-CoveredBy now ds ([], db.jobs) db.shards (unfold release_each in c)) c
