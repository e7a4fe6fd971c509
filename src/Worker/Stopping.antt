-- ===== src/Worker/Stopping.antt =====
-- What runOne leaves alone: a worker that was fenced, stopped or aborted.
use job_scheduling.Base.{
  ℕ, ◌≡◌, ◌⊎◌, inl, inr, refl, ap, Bool, true, false, not, Option, none, some, List, ◌∷◌, ◌++◌,
  String, find, map, modify, ◌==◌, if_elim, arith,
}
use job_scheduling.Store.{
  Job, Db, DbError, Execution, Violation, Outcome, is_active, same_status, cancelled,
}
use job_scheduling.Jobs.Claim.{Claimed, has_id}
use job_scheduling.Jobs.Start.{open_execution, close_with}
use job_scheduling.Jobs.Lease.{
  Answer, value, error, Verdict, is_live, is_fenced, is_cancelled, is_timeout, probe, probe_found,
  close_execution, violation, past_deadline,
}
use job_scheduling.Worker.Retry.{Attempt}
use job_scheduling.Worker.Logs.{LogRow, line_of, write_logs, write_logs-lines, write_logs-failed}
use job_scheduling.Worker.Run.{Returned, err, Ending, close_after, probe_job, settle_job, end_job}

-- At most the one execution is closed, if it is open.
abbrev pub Closed : ℕ → ℕ → List Execution → List Execution → Type 0
Closed now exec xs xs' =
    (xs' ≡ xs)
    ⊎ ((o : Outcome) × (xs' ≡ modify (open_execution exec) (close_with o now none none) xs))

-- At most one violation is added, and it is this worker's, of this job.
abbrev pub Noted : ℕ → Claimed → List Violation → List Violation → Type 0
Noted worker c vs vs' =
    (vs' ≡ vs)
    ⊎ ((v : Violation) × (v.job ≡ c.id)
        × (v.worker ≡ worker)
        × (v.held_fence ≡ c.fence)
        × (vs' ≡ v ∷ vs))

-- Of all tables only executions and violations differ, and no more than that.
abbrev pub Unmoved : ℕ → ℕ → Claimed → ℕ → Db → Db → Type 0
Unmoved now worker c exec db db' =
    (xs : List Execution) × (vs : List Violation) × Closed now exec db.executions xs
    × Noted worker c db.violations vs
    × (db' ≡ record db { executions = xs; violations = vs })

Unmoved-refl : (now worker : ℕ) (c : Claimed) (exec : ℕ) (db : Db) → Unmoved now worker c exec db db
Unmoved-refl now worker c exec db = (db.executions, db.violations, inl refl, inl refl, refl)

-- What a probe may leave.
abbrev Told : ℕ → Claimed → Db → Db → Type 0
Told worker c db db' =
    (vs : List Violation) × Noted worker c db.violations vs × (db' ≡ record db { violations = vs })

Told-refl : (worker : ℕ) (c : Claimed) (db : Db) → Told worker c db db
Told-refl worker c db = (db.violations, inl refl, refl)

violation-Told :
    (worker : ℕ) (c : Claimed) (o : Option Job) (db : Db)
    → Told worker c db (violation c.id worker c.fence o db)
unfolding violation
violation-Told worker c o db = (_, inr (_, refl, refl, refl, refl), refl)

probe_found-Told :
    (now worker : ℕ) (c : Claimed) (o : Option Job) (db : Db)
    → Told worker c db (probe_found now c.id c.fence worker o db).1
unfolding probe_found
probe_found-Told now worker c none db = violation-Told worker c none db
probe_found-Told now worker c (some j) db =
    let P : Verdict × Db → Type 0 = λ r. Told worker c db r.1 in
    let same = Told-refl worker c db in
    let noted = violation-Told worker c (some j) db in
    if_elim P (not (j.fence == c.fence)) _ _ noted (
      if_elim P (is_active j.status) _ _ same (
        if_elim P (same_status j.status cancelled) _ _ same
          (if_elim P (past_deadline now j.deadline_at) _ _ same noted)))

probe-Told :
    (f : Option DbError) (now worker : ℕ) (c : Claimed) (db : Db)
    → Told worker c db (probe f now c.id c.fence worker db).1
unfolding probe
probe-Told (some e) now worker c db = Told-refl worker c db
probe-Told none now worker c db = probe_found-Told now worker c (find (has_id c.id) db.jobs) db

Told-Unmoved :
    (now worker : ℕ) (c : Claimed) (exec : ℕ) (db db' : Db)
    → Told worker c db db'
    → Unmoved now worker c exec db db'
Told-Unmoved now worker c exec db db' (vs, noted, is) = (db.executions, vs, inl refl, noted, is)

shut-Unmoved :
    (now worker : ℕ) (c : Claimed) (exec : ℕ) (o : Outcome) (db db' : Db)
    → Told worker c db db'
    → Unmoved now worker c exec db (record db' {
      executions = modify (open_execution exec) (close_with o now none none) db'.executions;
    })
shut-Unmoved now worker c exec o db db' (vs, noted, is) =
    let closed : List Execution → List Execution =
      modify (open_execution exec) (close_with o now none none) in
    (
      closed db.executions,
      vs,
      inr (o, refl),
      noted,
      ap (λ (d : Db). record d { executions = closed d.executions }) is,
    )

close-Unmoved :
    (now worker : ℕ) (c : Claimed) (exec : ℕ) (v : Verdict) (db db' : Db)
    → Told worker c db db'
    → Unmoved now worker c exec db (close_execution now exec v db')
unfolding close_execution
close-Unmoved now worker c exec is_live db db' t = Told-Unmoved now worker c exec db db' t
close-Unmoved now worker c exec is_fenced db db' t =
    shut-Unmoved now worker c exec Outcome.fenced db db' t
close-Unmoved now worker c exec is_cancelled db db' t =
    shut-Unmoved now worker c exec Outcome.cancelled db db' t
close-Unmoved now worker c exec is_timeout db db' t =
    shut-Unmoved now worker c exec Outcome.timeout db db' t

close_after-Unmoved :
    (now worker : ℕ) (c : Claimed) (exec : ℕ) (f : Option DbError) (r : Answer Verdict × Db)
    (db : Db)
    → Told worker c db r.1
    → Unmoved now worker c exec db (close_after now f exec r)
unfolding close_after
close_after-Unmoved now worker c exec f (error e, db') db u =
    Told-Unmoved now worker c exec db db' u
close_after-Unmoved now worker c exec f (value is_live, db') db u =
    Told-Unmoved now worker c exec db db' u
close_after-Unmoved now worker c exec (some e) (value v, db') db u =
    let same = Told-Unmoved now worker c exec db db' u in elim v [ is_live ↦ same | _ ↦ same ]
close_after-Unmoved now worker c exec none (value v, db') db u =
    close-Unmoved now worker c exec v db db' u

-- The worker was told that it is fenced; or it was aborted, and its handler failed.
abbrev pub IsSilenced : Ending → Returned → Type 0
IsSilenced end ret =
    (end.was_fenced ≡ true)
    ⊎ ((end.was_fenced ≡ false)
        × (end.aborted ≡ true)
        × ((permanent : Bool) × (message : String) × (ret ≡ err permanent message)))

-- The lines of a handler that has ended are behind those of the table; or the write failed.
abbrev pub Logged : Ending → List LogRow → List LogRow → Type 0
Logged end rows rows' =
    ((end.log_fault ≡ none) × (map line_of rows' ≡ map line_of rows ++ end.lines))
    ⊎ (((e : DbError) × (end.log_fault ≡ some e)) × (rows' ≡ rows))

write_logs-Logged :
    (end : Ending) (exec : ℕ) (rows : List LogRow) (fault : Option DbError)
    → end.log_fault ≡ fault
    → Logged end rows (write_logs fault end.log_now exec end.lines rows)
write_logs-Logged end exec rows none h = inl (h, write_logs-lines end.log_now exec end.lines rows)
write_logs-Logged end exec rows (some e) h =
    inr ((e, h), write_logs-failed e end.log_now exec end.lines rows)

settle_job-silent :
    (meets : ℕ → Attempt) (draw : ℕ → ℕ) (end : Ending) (worker : ℕ) (c : Claimed) (exec : ℕ)
    (ret : Returned) (db : Db)
    → IsSilenced end ret
    → let (out, db') = settle_job meets draw end worker c exec ret db in
      (out ≡ none) × Unmoved end.now worker c exec db db' × (end.was_fenced ≡ false → db' ≡ db)
unfolding settle_job probe_job
settle_job-silent meets draw end worker c exec ret db (inl told) = rw told (
  refl,
  close_after-Unmoved end.now worker c exec end.close_fault _ db
      (probe-Told end.probe_fault end.now worker c db),
  λ h. ground arith,
)
settle_job-silent meets draw end worker c exec ret db (inr (free, over, (permanent, message, is))) =
    rw (is, free, over) (refl, Unmoved-refl end.now worker c exec db, λ h. refl)

-- A worker that was told that it is fenced, whatever its handler returned, or that was aborted and
-- whose handler failed, hands no completion over and reports nothing: the handler's lines are
-- written behind those of the table, or lost where that fails; its execution may be closed, and one
-- violation may be recorded that names this worker, the job and the fence it held; and of all
-- tables nothing else is changed. Where it was not told, nothing but the lines is.
pub fenced_worker_is_silent :
    (meets : ℕ → Attempt) (draw : ℕ → ℕ) (end : Ending) (worker : ℕ) (c : Claimed) (exec : ℕ)
    (ret : Returned) (job_logs : List LogRow) (db : Db)
    → IsSilenced end ret
    → let (out, job_logs', db') = end_job meets draw end worker c exec ret job_logs db in
      (out ≡ none)
      × Logged end job_logs job_logs'
      × Unmoved end.now worker c exec db db'
      × (end.was_fenced ≡ false → db' ≡ db)
unfolding end_job
fenced_worker_is_silent meets draw end worker c exec ret job_logs db h =
    let (none_out, unmoved, same) = settle_job-silent meets draw end worker c exec ret db h in
    (none_out, write_logs-Logged end exec job_logs end.log_fault refl, unmoved, same)
