-- ===== src/Jobs/Handout.antt =====
-- What take of internal/jobs/claim.go hands out: jobs that are claimed under the fence it reports.
use job_scheduling.Base.{
  ℕ, ltb, ◌≤◌, ◌≡◌, refl, Bool, true, false, ◌&&◌, Option, none, some, List, [], ◌∷◌, arith, ◌==◌,
  exists, find, modify, Bool-cases, inl, inr, All, if_elim, length, subst, All-append,
}
use job_scheduling.Store.{Job, Db, is_claimed}
use job_scheduling.Jobs.Slots.Claims.{claim-le}
use job_scheduling.Jobs.Claim.{
  Claimed, ClaimRequest, claimable, is_candidate, claim_row, claim_one, claim_all, candidates,
  take_jobs, handed, has_id,
}

abbrev pub is_worker : ℕ → Option ℕ → Bool
is_worker w none = false
is_worker w (some v) = v == w

-- A row that is claimed by `worker` under the fence that was handed out, for the queue.
unfoldable pub is_handed : ClaimRequest → Claimed → Job → Bool
is_handed req c j =
    has_id c.id j
    && j.fence == c.fence
    && is_claimed j.status
    && j.queue == req.queue
    && is_worker req.worker j.worker

abbrev pub HandedIn : ClaimRequest → List Job → Claimed → Type 0
HandedIn req jobs c = exists (is_handed req c) jobs ≡ true

module _ (now : ℕ) (locked : ℕ → Bool) (req : ClaimRequest) (sh : ℕ) where
  claimable-unhanded :
      (i : ℕ) (c : Claimed) (j : Job)
      → claimable now locked req i j ≡ true
      → is_handed req c j ≡ false
  unfolding claimable is_candidate is_handed
  claimable-unhanded i c j h = ground arith

  -- A claim leaves the rows that are claimed already.
  handed_kept :
      (i : ℕ) (c : Claimed) (jobs : List Job)
      → HandedIn req jobs c
      → HandedIn req (modify (claimable now locked req i) (claim_row now req sh) jobs) c
  unfolding exists modify
  handed_kept i c [] h = h
  handed_kept i c (x ∷ xs) h = elim (Bool-cases (claimable now locked req i x)) [
    | inl hit ↦ rw hit (ground (arith, claimable-unhanded i c x hit))
    | inr miss ↦ rw miss (ground (arith, handed_kept i c xs))
  ]

  -- A claimed row is what is handed out of it.
  handed_row :
      (i : ℕ) (j : Job)
      → claimable now locked req i j ≡ true
      → (xs : List Job)
      → HandedIn req (claim_row now req sh j ∷ xs) (handed (claim_row now req sh j))
  unfolding exists is_handed claim_row claimable is_candidate
  handed_row i j h xs = ground arith

  handed_new :
      (i : ℕ) (j : Job) (jobs : List Job)
      → find (claimable now locked req i) jobs ≡ some j
      → HandedIn req
          (modify (claimable now locked req i) (claim_row now req sh) jobs)
          (handed (claim_row now req sh j))
  unfolding exists modify find
  handed_new i j [] e = ground arith
  handed_new i j (x ∷ xs) e = elim (Bool-cases (claimable now locked req i x)) [
    | inl hit ↦
        let same : x ≡ j = ground arith in
        rw (hit, same)
          (handed_row i j (subst (λ y. claimable now locked req i y ≡ true) same hit) xs)
    | inr miss ↦ rw miss (ground (arith, handed_new i j xs (ground arith)))
  ]

  claim_one-HandedIn :
      (i : ℕ) (o : Option Job) (db : Db)
      → find (claimable now locked req i) db.jobs ≡ o
      → let (out, db') = claim_one now locked req sh i o db in All (HandedIn req db'.jobs) out
  unfolding claim_one
  claim_one-HandedIn i none db e = tt
  claim_one-HandedIn i (some j) db e = (handed_new i j db.jobs e, tt)

  claim_one-kept :
      (i : ℕ) (o : Option Job) (c : Claimed) (db : Db)
      → HandedIn req db.jobs c
      → HandedIn req (claim_one now locked req sh i o db).1.jobs c
  unfolding claim_one
  claim_one-kept i none c db h = h
  claim_one-kept i (some j) c db h = handed_kept i c db.jobs h

  claim_all-kept :
      (cs : List Job) (c : Claimed) (db : Db)
      → HandedIn req db.jobs c
      → HandedIn req (claim_all now locked req sh cs db).1.jobs c
  unfolding claim_all
  claim_all-kept [] c db h = h
  claim_all-kept (x ∷ xs) c db h = claim_all-kept xs c _ (claim_one-kept x.id _ c db h)

  All-kept :
      (cs : List Job) (out : List Claimed) (db : Db)
      → All (HandedIn req db.jobs) out
      → All (HandedIn req (claim_all now locked req sh cs db).1.jobs) out
  All-kept cs [] db h = tt
  All-kept cs (c ∷ out) db (h, t) = (claim_all-kept cs c db h, All-kept cs out db t)

  claim_all-HandedIn :
      (cs : List Job) (db : Db)
      → let (out, db') = claim_all now locked req sh cs db in All (HandedIn req db'.jobs) out
  unfolding claim_all
  claim_all-HandedIn [] db = tt
  claim_all-HandedIn (c ∷ cs) db =
      let o = find (claimable now locked req c.id) db.jobs in
      let (one, db1) = claim_one now locked req sh c.id o db in
      All-append (HandedIn req (claim_all now locked req sh cs db1).1.jobs) one _
        (All-kept cs one db1 (claim_one-HandedIn c.id o db refl)) (claim_all-HandedIn cs db1)

-- Each job that a claim hands to a worker is a row of the requested queue that is now claimed by
-- that worker, under the fence that the worker is told; no later job of the same claim undoes it.
pub claims_are_held :
    (now : ℕ) (locked : ℕ → Bool) (req : ClaimRequest) (sh n : ℕ) (db : Db)
    → let (out, db') = take_jobs now locked req sh n db in
      (length out ≤ n) × All (λ c. exists (is_handed req c) db'.jobs ≡ true) out
unfolding take_jobs
claims_are_held now locked req sh n db =
    let cs = candidates now locked req n db.jobs in
    (
      claim-le now locked req sh n db,
      if_elim (λ (x : Db). All (HandedIn req x.jobs) (claim_all now locked req sh cs db).0)
          (ltb (length (claim_all now locked req sh cs db).0) n) _ _
          (claim_all-HandedIn now locked req sh cs db) (claim_all-HandedIn now locked req sh cs db),
    )
