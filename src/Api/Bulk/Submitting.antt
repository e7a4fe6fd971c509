-- ===== src/Api/Bulk/Submitting.antt =====
-- What a submitted batch comes to (submitBatch of internal/api/jobs.go).
use job_scheduling.Base.{
  ℕ, ◌+◌, ◌≤◌, ◌<◌, ◌≡◌, sym, ◌∙◌, ap, subst, Bool, ◌&&◌, Option, none, some, List, [], ◌∷◌, ◌++◌,
  arith, ◌==◌, find, count, length, map, count-append, count-le-length, All, ltb→lt, leb→le,
}
use job_scheduling.Store.{Job, Queue, Db, is_queued, EventPayload, batch_submitted}
use job_scheduling.Jobs.Admit.{is_queue}
use job_scheduling.Jobs.Start.{event}
use job_scheduling.Api.Problem.{done}
use job_scheduling.Api.Submit.{SubmitReq, Libraries, Call, depth_of}
use job_scheduling.Api.Binds.{done-eq, bind-done, expect-done, require-done}
use job_scheduling.Api.Bulk.{check_batch_depth, batch_jobs, BatchView, submit_batch, in_batch}
use job_scheduling.Api.Bulk.Starting.{
  read_items_lem, IsOfBatch, batch_jobs_lem, check_batch_depth-done, Started, new_batch-Started,
}

-- What a batch that is accepted leaves: `rows` are the new jobs.
abbrev pub IsSubmitted : ℕ → Call → Queue → ℕ → List Job → BatchView → Db → Db → Type 0
IsSubmitted batch call qr n rows view db db' =
    (length rows ≡ n)
    × All (IsOfBatch call batch qr.policy) rows
    × (view ≡ record { batch = batch; count = n; jobs = map (λ j. j.id) rows })
    × (db' ≡ record db {
      jobs = rows ++ db.jobs;
      events = db.events ++ event batch_submitted batch call.project (EventPayload.count_is n) ∷ [];
    })

-- A queue with a cap is deeper than it by no more than what others have added since the count.
abbrev pub WithinCap : Option ℕ → ℕ → ℕ → ℕ → Type 0
WithinCap none counted found depth = Unit
WithinCap (some most) counted found depth = depth + counted ≤ most + found

depth_after :
    (cap : Option ℕ) (q n : ℕ) (rows : List Job) (seen db db' : Db) (u : Unit {0})
    → check_batch_depth cap n q seen ≡ done u
    → length rows ≡ n
    → db'.jobs ≡ rows ++ db.jobs
    → WithinCap cap (depth_of q seen.jobs) (depth_of q db.jobs) (depth_of q db'.jobs)
depth_after none q n rows seen db db' u h len e = tt
depth_after (some most) q n rows seen db db' u h len e =
    let p : Job → Bool = λ j. j.queue == q && is_queued j.status in
    omega (
      arith,
      check_batch_depth-done n q seen u most h,
      ap (depth_of q) e ∙ count-append p rows db.jobs,
      count-le-length p rows,
    )

pub submit_batch-IsSubmitted :
    (lib : Libraries) (fresh : ℕ → ℕ) (batch : ℕ) (reqs : List SubmitReq) (call : Call)
    (seen db : Db) (view : BatchView) (db' : Db)
    → submit_batch lib fresh batch reqs call seen db ≡ done (view, db')
    → (qr : Queue) × (rows : List Job) × (find (is_queue call.queue) db.queues ≡ some qr)
      × (1 ≤ length reqs)
      × (length reqs ≤ 1000)
      × IsSubmitted batch call qr (length reqs) rows view db db'
      × WithinCap qr.max_depth
          (depth_of call.queue seen.jobs)
          (depth_of call.queue db.jobs)
          (depth_of call.queue db'.jobs)
unfolding submit_batch
submit_batch-IsSubmitted lib fresh batch reqs call seen db view db' h =
    let (u, some_jobs, h1) = bind-done _ _ _ h in
    let (v, few_jobs, h2) = bind-done _ _ _ h1 in
    let (qr, found, h3) = bind-done _ _ _ h2 in
    let (w, deep, h4) = bind-done _ _ _ h3 in
    let (ds, read, h5) = bind-done _ _ _ h4 in
    let (x, timed, h6) = bind-done _ _ _ h5 in
    let (n, policies) = read_items_lem lib qr.policy qr.default_priority reqs ds read in
    let (n', a) = batch_jobs_lem fresh call batch qr.policy 0 ds policies in
    let rows = batch_jobs fresh call batch 0 ds in
    let len : length rows ≡ length reqs = omega (arith, n, n') in
    let e = done-eq _ (view, db') h6 in
    let result = ap (λ (r : BatchView × Db). r.0) e in
    let after = ap (λ (r : BatchView × Db). r.1) e in
    let jobs' : db'.jobs ≡ rows ++ db.jobs = sym (ap (λ (d : Db). d.jobs) after) in
    (
      qr,
      rows,
      expect-done _ _ qr found,
      ltb→lt _ _ (require-done _ _ u some_jobs),
      leb→le _ _ (require-done _ _ v few_jobs),
      (
        len,
        a,
        subst (λ m. view ≡ record { batch = batch; count = m; jobs = map (λ j. j.id) rows }) len
            (sym result),
        subst
            (λ m. db' ≡ record db {
              jobs = rows ++ db.jobs;
              events =
                  db.events
                  ++ event batch_submitted batch call.project (EventPayload.count_is m) ∷ [];
            })
            len (sym after),
      ),
      depth_after qr.max_depth call.queue (length reqs) rows seen db db' w deep len jobs',
    )

-- A batch under a new id that submitBatch accepts is of a queue in the table and has between 1 and 1000 jobs, as
-- many as were sent. They are the only new jobs: each is well formed, waits or is scheduled, has the
-- batch, the queue, the project and the queue's policy, and has not been tried; one event tells of
-- them, and nothing else changes. Where the queue has a depth cap, it is deeper than that after
-- by no more than the waiting jobs that others have added since submitBatch counted them; so it
-- is within the cap if nobody has. Of the database after, getBatch says that the batch has as many jobs as were sent, that
-- none of them has ended, and that it is not complete.
pub submit_batch_lem :
    (lib : Libraries) (fresh : ℕ → ℕ) (batch : ℕ) (reqs : List SubmitReq) (call : Call)
    (seen db : Db) (view : BatchView) (db' : Db)
    → count (in_batch batch) db.jobs ≡ 0
    → submit_batch lib fresh batch reqs call seen db ≡ done (view, db')
    → (qr : Queue) × (rows : List Job) × (find (is_queue call.queue) db.queues ≡ some qr)
      × (1 ≤ length reqs)
      × (length reqs ≤ 1000)
      × IsSubmitted batch call qr (length reqs) rows view db db'
      × WithinCap qr.max_depth
          (depth_of call.queue seen.jobs)
          (depth_of call.queue db.jobs)
          (depth_of call.queue db'.jobs)
      × Started batch (length reqs) db'
submit_batch_lem lib fresh batch reqs call seen db view db' unused h =
    let (qr, rows, found, at_least, at_most, (len, a, result, after), within) =
      submit_batch-IsSubmitted lib fresh batch reqs call seen db view db' h in
    let jobs' = ap (λ (d : Db). d.jobs) after in
    let filled : 0 < length rows = omega (arith, len, at_least) in
    (
      qr,
      rows,
      found,
      at_least,
      at_most,
      (len, a, result, after),
      within,
      subst (λ m. Started batch m db') len
          (new_batch-Started call batch qr.policy rows db db' a filled unused jobs'),
    )
