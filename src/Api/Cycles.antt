-- ===== src/Api/Cycles.antt =====
-- The cycle check of link (internal/api/jobs.go), cycleSQL.
use job_scheduling.Base.{
  ℕ, zero, suc, ◌≡◌, refl, true, false, ◌||◌, List, [], ◌∷◌, ◌++◌, arith, ◌==◌, elem, length,
  exists,
}
use job_scheduling.Store.{Dependency}
use job_scheduling.Api.Links.{climb_each, parents_of, climb, climb_base, has_cycle}

elem-append : (a : ℕ) (xs ys : List ℕ) → elem a (xs ++ ys) ≡ (elem a xs || elem a ys)
unfolding elem
elem-append a [] ys = refl
elem-append a (x ∷ xs) ys = ground (arith, elem-append a xs ys)

module _ (child : ℕ) where
  climb_each-misses :
      (higher : List ℕ → ℕ → List ℕ) (path : List ℕ) (deps : List Dependency)
      → ((p : List ℕ) (i : ℕ) → elem child p ≡ true → elem child (higher p i) ≡ false)
      → elem child path ≡ true
      → elem child (climb_each higher path deps) ≡ false
  unfolding climb_each elem
  climb_each-misses higher path [] h on = refl
  climb_each-misses higher path (d ∷ ds) h on =
      let rest = climb_each-misses higher path ds h on in
      let above = h (d.child ∷ path) d.parent (ground arith) in
      ground
        (arith, elem-append child (higher (d.child ∷ path) d.parent) (climb_each higher path ds))

  climb-misses :
      (fuel : ℕ) (deps : List Dependency) (path : List ℕ) (i : ℕ)
      → elem child path ≡ true
      → elem child (climb fuel deps path i) ≡ false
  unfolding climb elem
  climb-misses zero deps path i on = refl
  climb-misses (suc fuel) deps path i on =
      climb_each-misses (climb fuel deps) path (parents_of i deps)
        (λ p k h. climb-misses fuel deps p k h) on

  climb_base-misses :
      (fuel : ℕ) (deps edges : List Dependency)
      → exists (λ d. d.parent == child) edges ≡ false
      → elem child (climb_base fuel deps child edges) ≡ false
  unfolding climb_base elem exists
  climb_base-misses fuel deps [] h = refl
  climb_base-misses fuel deps (d ∷ ds) h = ground (
    arith,
    climb-misses fuel deps (child ∷ []) d.parent (ground arith),
    climb_base-misses fuel deps ds,
    elem-append child (climb fuel deps (child ∷ []) d.parent) (climb_base fuel deps child ds),
  )

-- The query that looks for a cycle through a new job reports none, whatever the dependencies are,
-- unless the job is named as its own parent, which the table itself rules out: its base puts the
-- job on every path, and its step never returns to a job on the path.
pub has_cycle_lem :
    (child : ℕ) (deps : List Dependency)
    → exists (λ d. d.parent == child) (parents_of child deps) ≡ false
    → has_cycle child deps ≡ false
unfolding has_cycle
has_cycle_lem child deps h = climb_base-misses child (length deps) deps (parents_of child deps) h
