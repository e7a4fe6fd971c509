-- ===== src/Scheduler/Reaping.antt =====
-- What one run of the reaper leaves behind (internal/scheduler/reaper.go).
use job_scheduling.Base.{
  find-All, ℕ, zero, suc, ◌≤◌, ◌≡◌, refl, sym, ap, subst, Bool, true, false, Option, none, some,
  List, [], ◌∷◌, arith, fun_ext, if◌then◌else◌, if_elim, Bool-cases, Option-cases, inl, inr, find,
  modify, exists, count, select, sort_by, insert_sorted, take, length, length-select-le, map, All,
  Rowwise, Rowwise-refl, Rowwise-modify, Rowwise-trans,
}
use job_scheduling.Store.{Job, Lease, Policy, Db, DbError}
use job_scheduling.Jobs.Claim.{has_id}
use job_scheduling.Jobs.Failure.{
  failable, fail_row, exhausted, retried, buried, failure_of, failure_found, report_failure,
}
use job_scheduling.Scheduler.Reaper.{
  is_expired, expired, lost_failure, report_lost, Turn, bump, by_expiry, reap_each, reap,
}
use job_scheduling.Scheduler.Settling.{
  Settles, Settles-refl, Settles-trans, fail_row-Settles, cancel_descendants-Settles, is_held,
  exists-Settles, count-Settles, HasPolicies, HasPolicies-Settles, modify-clears, find_of_exists,
  exists_of_find,
}

failable-held : (job : ℕ) (j : Job) → failable job none j ≡ is_held job j
unfolding failable
failable-held job j = ground arith

-- A job that is reported lost is taken from its worker, and no other job is given to one.
abbrev Taken : ℕ → Db → Db → Type 0
Taken job db db' =
    Rowwise Settles db.jobs db'.jobs
    × (db'.policies ≡ db.policies)
    × (exists (is_held job) db'.jobs ≡ false)

failure_of-Taken :
    (draw : ℕ → ℕ) (now job : ℕ) (j : Job) (rp : Policy) (db : Db)
    → count (has_id job) db.jobs ≤ 1
    → Taken job db (failure_of draw now job none lost_failure j (some rp) db).1
unfolding failure_of retried buried
failure_of-Taken draw now job j rp db one =
    let row = λ (k : Job). fail_row-Settles draw now false rp k in
    let changed =
      Rowwise-modify Settles (failable job none) (fail_row draw now false rp) Settles-refl
        (λ k h. (row k).0) db.jobs in
    let cleared =
      modify-clears (is_held job) (fail_row draw now false rp) job db.jobs (λ k h. ground arith)
        (λ k. rw (row k).1 (ground arith)) one in
    let gone =
      subst (λ p. exists (is_held job) (modify p (fail_row draw now false rp) db.jobs) ≡ false)
        (sym (fun_ext (failable-held job))) cleared in
    let cut =
      cancel_descendants-Settles now j.id db
        (modify (failable job none) (fail_row draw now false rp) db.jobs) in
    if_elim (λ (x : Db). Taken job db x) (exhausted false rp j) _ _
      (Rowwise-trans Settles Settles-trans changed cut, refl, exists-Settles job cut gone)
      (changed, refl, gone)

report_lost-Taken :
    (draw : ℕ → ℕ) (now job : ℕ) (db : Db)
    → count (has_id job) db.jobs ≤ 1
    → HasPolicies db.policies db.jobs
    → Taken job db (report_lost draw now job db).1
unfolding report_lost report_failure failure_found
report_lost-Taken draw now job db one a = elim (Option-cases (find (failable job none) db.jobs)) [
  | inl e ↦
      rw (e, failure_found)
        (
          Rowwise-refl Settles Settles-refl db.jobs,
          refl,
          exists_of_find (failable job none) (is_held job) db.jobs (failable-held job) e,
        )
  | inr (j, e) ↦
      let (rp, found) =
        find_of_exists _ db.policies (find-All _ (failable job none) db.jobs j e a) in
      rw (e, failure_found, found) (failure_of-Taken draw now job j rp db one)
]

reap_step :
    (draw : ℕ → ℕ) (turn : ℕ → Turn) (job : ℕ) (jobs : List ℕ) (reaped : ℕ) (db : Db)
    → (turn job).fault ≡ none
    → let r = report_lost draw (turn job).now job db in
      reap_each draw turn (job ∷ jobs) reaped db ≡ reap_each draw turn jobs (bump r.0 reaped) r.1
unfolding reap_each
reap_step draw turn job jobs reaped db h = rw (reap_each, h) refl

reap_each-clears :
    (draw : ℕ → ℕ) (turn : ℕ → Turn) (jobs : List ℕ) (reaped : ℕ) (db : Db)
    → ((job : ℕ) → (turn job).fault ≡ none)
    → ((job : ℕ) → count (has_id job) db.jobs ≤ 1)
    → HasPolicies db.policies db.jobs
    → All (λ job. exists (is_held job) (reap_each draw turn jobs reaped db).2.jobs ≡ false) jobs
      × Rowwise Settles db.jobs (reap_each draw turn jobs reaped db).2.jobs
unfolding reap_each
reap_each-clears draw turn [] reaped db calm one a = (tt, Rowwise-refl Settles Settles-refl db.jobs)
reap_each-clears draw turn (job ∷ jobs) reaped db calm one a =
    let now = (turn job).now in
    let r = report_lost draw now job db in
    let (changed, same, gone) = report_lost-Taken draw now job db (one job) a in
    let one' = λ (id : ℕ). subst (λ n. n ≤ 1) (sym (count-Settles id changed)) (one id) in
    let a' =
      subst (λ ps. HasPolicies ps r.1.jobs) (sym same)
        (HasPolicies-Settles db.policies changed a) in
    let (cleared, rest) = reap_each-clears draw turn jobs (bump r.0 reaped) r.1 calm one' a' in
    subst
      (λ (x : ℕ × Option DbError × Db).
        All (λ id. exists (is_held id) x.2.jobs ≡ false) (job ∷ jobs)
        × Rowwise Settles db.jobs x.2.jobs)
      (sym (reap_step draw turn job jobs reaped db (calm job)))
      ((exists-Settles job rest gone, cleared), Rowwise-trans Settles Settles-trans changed rest)

length-insert :
    (l : Lease) (ls : List Lease) → length (insert_sorted by_expiry l ls) ≡ suc (length ls)
unfolding insert_sorted
length-insert l [] = refl
length-insert l (k ∷ ls) = ground (arith, length-insert l ls)

length-sort : (ls : List Lease) → length (sort_by by_expiry ls) ≡ length ls
unfolding sort_by
length-sort [] = refl
length-sort (l ∷ ls) = omega (arith, length-insert l (sort_by by_expiry ls), length-sort ls)

take_whole : (n : ℕ) (ls : List Lease) → length ls ≤ n → take n ls ≡ ls
take_whole zero [] h = refl
take_whole (suc n) [] h = refl
take_whole zero (l ∷ ls) h = absurd (omega arith)
take_whole (suc n) (l ∷ ls) h = ap (◌∷◌ l) (take_whole n ls (omega arith))

All-inserted :
    (P : Lease → Type 0) (l : Lease) (ls : List Lease)
    → All P (insert_sorted by_expiry l ls)
    → P l × All P ls
unfolding insert_sorted
All-inserted P l [] a = a
All-inserted P l (k ∷ ls) a = inserted (All-inserted P l ls) (by_expiry k l) a
  where
    inserted :
        (All P (insert_sorted by_expiry l ls) → P l × All P ls)
        → (b : Bool) → All P (if b then k ∷ insert_sorted by_expiry l ls else l ∷ k ∷ ls)
        → P l × All P (k ∷ ls)
    inserted recur true (h, rest) = let (first, others) = recur rest in (first, (h, others))
    inserted recur false a' = a'

All-sorted : (P : Lease → Type 0) (ls : List Lease) → All P (sort_by by_expiry ls) → All P ls
unfolding sort_by
All-sorted P [] a = tt
All-sorted P (l ∷ ls) a =
    let (first, rest) = All-inserted P l (sort_by by_expiry ls) a in (first, All-sorted P ls rest)

All-selected :
    (P : Lease → Type 0) (q : Lease → Bool) (ls : List Lease)
    → All P (select q ls)
    → All (λ l. q l ≡ true → P l) ls
unfolding select
All-selected P q [] a = tt
All-selected P q (l ∷ ls) a = elim (Bool-cases (q l)) [
  | inl e ↦ let b : All P (l ∷ select q ls) = rw e at a in (λ h. b.0, All-selected P q ls b.1)
  | inr e ↦
      let b : All P (select q ls) = rw e at a in (λ h. absurd (ground arith), All-selected P q ls b)
]

All-mapped :
    (P : ℕ → Type 0) (ls : List Lease) → All P (map (λ l. l.job) ls) → All (λ l. P l.job) ls
All-mapped P [] a = tt
All-mapped P (l ∷ ls) (h, a) = (h, All-mapped P ls a)

-- A run of the reaper that meets no error, with room for every lease, takes every job whose lease has
-- run out from its worker: none of these jobs is claimed or running after it, whichever of
-- retry_wait and dead_letter it went to. Every job's id is its own, and its policy is in the table.
pub reap_lem :
    (draw : ℕ → ℕ) (turn : ℕ → Turn) (now limit : ℕ) (db : Db)
    → ((job : ℕ) → (turn job).fault ≡ none)
    → length db.leases ≤ limit
    → ((job : ℕ) → count (has_id job) db.jobs ≤ 1)
    → HasPolicies db.policies db.jobs
    → All
        (λ l.
          is_expired now db.jobs l ≡ true
          → exists (is_held l.job) (reap none draw turn now limit db).2.jobs ≡ false)
        db.leases
unfolding reap expired
reap_lem draw turn now limit db calm room one a =
    let after = (reap none draw turn now limit db).2.jobs in
    let due = select (is_expired now db.jobs) db.leases in
    let cleared = (reap_each-clears draw turn (expired now limit db) 0 db calm one a).0 in
    let all =
      take_whole limit (sort_by by_expiry due)
        (omega (arith, length-sort due, length-select-le (is_expired now db.jobs) db.leases)) in
    let listed =
      subst (All (λ l. exists (is_held l.job) after ≡ false)) all
        (All-mapped (λ job. exists (is_held job) after ≡ false) _ cleared) in
    All-selected _ (is_expired now db.jobs) db.leases (All-sorted _ due listed)
