-- ===== src/Scheduler/Settling.antt =====
-- Rows of jobs after failures: nothing that ends or waits becomes active (migrations/028_shard_release.sql).
use job_scheduling.Base.{
  ℕ, ◌≤◌, ◌≡◌, refl, ◌∙◌, Bool, true, false, ◌&&◌, ◌||◌, none, some, List, [], ◌∷◌, arith, ◌==◌,
  Bool-cases, inl, inr, find, modify, exists, count, All, Rowwise, nil, cons, Rowwise-update_all,
}
use job_scheduling.Store.{Job, Policy, Db, is_active}
use job_scheduling.Jobs.Claim.{has_id}
use job_scheduling.Jobs.Deps.{is_doomed, cancel_row, cancel_descendants}
use job_scheduling.Jobs.Failure.{fail_row}

-- A row after updates that activate nothing.
abbrev pub Settles : Job → Job → Type 0
Settles j k =
    (k.id ≡ j.id)
    × (k.policy ≡ j.policy)
    × (is_active j.status ≡ false → is_active k.status ≡ false)

pub Settles-refl : (j : Job) → Settles j j
Settles-refl j = (refl, refl, λ h. h)

pub Settles-trans : (a b c : Job) → Settles a b → Settles b c → Settles a c
Settles-trans a b c h k = (k.0 ∙ h.0, k.1 ∙ h.1, λ e. k.2 (h.2 e))

pub fail_row-Settles :
    (draw : ℕ → ℕ) (now : ℕ) (permanent : Bool) (rp : Policy) (j : Job)
    → Settles j (fail_row draw now permanent rp j)
      × (is_active (fail_row draw now permanent rp j).status ≡ false)
unfolding fail_row
fail_row-Settles draw now permanent rp j =
    ((ground arith, ground arith, λ h. ground arith), ground arith)

pub cancel_descendants-Settles :
    (now root : ℕ) (db : Db) (jobs : List Job)
    → Rowwise Settles jobs (cancel_descendants now root db.dependencies jobs)
unfolding cancel_descendants cancel_row
cancel_descendants-Settles now root db jobs =
    Rowwise-update_all Settles (is_doomed root db.dependencies) (cancel_row now) Settles-refl
      (λ j h. (refl, refl, λ e. refl)) jobs

-- This job is claimed or running.
abbrev pub is_held : ℕ → Job → Bool
is_held job j = j.id == job && is_active j.status

or_false : (a b : Bool) → (a || b) ≡ false → (a ≡ false) × (b ≡ false)
or_false true b h = cc
or_false false b h = (refl, h)

held_after :
    (job id id' : ℕ) (a b : Bool)
    → id' ≡ id
    → (a ≡ false → b ≡ false)
    → (id == job && a) ≡ false
    → (id' == job && b) ≡ false
held_after job id id' a b e h k = elim (Bool-cases (id == job)) [
  | inl same ↦ let off : a ≡ false = ground arith in rw (h off) (ground arith)
  | inr other ↦ rw (e, other) refl
]

pub exists-Settles :
    (job : ℕ) {xs ys : List Job}
    → Rowwise Settles xs ys
    → exists (is_held job) xs ≡ false
    → exists (is_held job) ys ≡ false
unfolding exists
exists-Settles job nil h = h
exists-Settles job (cons {x} {y} s r) h =
    let (first, rest) = or_false (is_held job x) _ h in
    rw (held_after job x.id y.id (is_active x.status) (is_active y.status) s.0 s.2 first)
      (exists-Settles job r rest)

pub count-Settles :
    (job : ℕ) {xs ys : List Job}
    → Rowwise Settles xs ys
    → count (has_id job) ys ≡ count (has_id job) xs
unfolding count
count-Settles job nil = refl
count-Settles job (cons {x} {y} s r) = rw (s.0, count-Settles job r) refl

-- Every job has its policy.
abbrev pub HasPolicies : List Policy → List Job → Type 0
HasPolicies policies = All (λ j. exists (λ (rp : Policy). rp.id == j.policy) policies ≡ true)

pub HasPolicies-Settles :
    (policies : List Policy) {xs ys : List Job}
    → Rowwise Settles xs ys
    → HasPolicies policies xs
    → HasPolicies policies ys
HasPolicies-Settles policies nil a = tt
HasPolicies-Settles policies (cons {x} {y} s r) (h, a) =
    (rw s.1 h, HasPolicies-Settles policies r a)

none_left :
    (p : Job → Bool) (job : ℕ) (jobs : List Job)
    → ((j : Job) → p j ≡ true → has_id job j ≡ true)
    → count (has_id job) jobs ≤ 0
    → exists p jobs ≡ false
unfolding exists count
none_left p job [] n h = refl
none_left p job (j ∷ jobs) n h = elim (Bool-cases (p j)) [
  | inl e ↦ absurd (ground (arith, n j e))
  | inr e ↦ rw e (none_left p job jobs n (ground arith))
]

-- Where one row passes a test, changing it so that it does not leaves none that does.
pub modify-clears :
    (p : Job → Bool) (f : Job → Job) (job : ℕ) (jobs : List Job)
    → ((j : Job) → p j ≡ true → has_id job j ≡ true)
    → ((j : Job) → p (f j) ≡ false)
    → count (has_id job) jobs ≤ 1
    → exists p (modify p f jobs) ≡ false
unfolding exists modify count
modify-clears p f job [] n c h = refl
modify-clears p f job (j ∷ jobs) n c h = elim (Bool-cases (p j)) [
  | inl e ↦ rw (e, c j) (none_left p job jobs n (ground (arith, n j e)))
  | inr e ↦ rw (e, e) (modify-clears p f job jobs n c (ground arith))
]

pub find_of_exists :
    (p : Policy → Bool) (ps : List Policy)
    → exists p ps ≡ true
    → (rp : Policy) × (find p ps ≡ some rp)
unfolding find exists
find_of_exists p [] h = ground arith
find_of_exists p (rp ∷ ps) h = elim (Bool-cases (p rp)) [
  | inl e ↦ (rp, rw e refl)
  | inr e ↦ rw e (find_of_exists p ps (ground arith))
]

pub exists_of_find :
    (p q : Job → Bool) (jobs : List Job)
    → ((j : Job) → p j ≡ q j)
    → find p jobs ≡ none
    → exists q jobs ≡ false
unfolding find exists
exists_of_find p q [] same h = refl
exists_of_find p q (j ∷ jobs) same h = elim (Bool-cases (p j)) [
  | inl e ↦ absurd (ground arith)
  | inr e ↦ rw (← same j, e) (exists_of_find p q jobs same (ground arith))
]
