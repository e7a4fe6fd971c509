-- ===== src/Base/Sorting.antt =====
-- `order by` over rows of which any two compare: what a sort keeps, and what is left of its result
-- behind one of its rows.
use Prim.Native.Nat.{ℕ, zero, suc, ◌+◌, ◌≤◌, ◌<◌}
use mathlib.Core.Path.{◌≡◌, refl, ap, sym}
use mathlib.Core.Logic.{inl, inr}
use mathlib.Core.Bool.{Bool, true, false, ◌||◌}
use mathlib.Core.List.{List, [], ◌∷◌, ◌++◌}
use native.Mathlib.Omega.{arith}
use job_scheduling.Base.Tests.{Bool-cases}
use job_scheduling.Base.Lists.{All, take, length, select, insert_sorted, sort_by}

module _ {ℓ} {A : Type ℓ} where
  abbrev pub drop : ℕ → List A → List A
  drop zero xs = xs
  drop (suc n) [] = []
  drop (suc n) (x ∷ xs) = drop n xs

  -- The last element, or the default where there is none.
  abbrev pub last_or : A → List A → A
  last_or d [] = d
  last_or d (x ∷ xs) = last_or x xs

  pub take-append-drop : (n : ℕ) (xs : List A) → take n xs ++ drop n xs ≡ xs
  take-append-drop zero xs = refl
  take-append-drop (suc n) [] = refl
  take-append-drop (suc n) (x ∷ xs) = ap (◌∷◌ x) (take-append-drop n xs)

  pub length-take-drop : (n : ℕ) (xs : List A) → length (take n xs) + length (drop n xs) ≡ length xs
  length-take-drop zero xs = omega arith
  length-take-drop (suc n) [] = omega arith
  length-take-drop (suc n) (x ∷ xs) = omega (arith, length-take-drop n xs)

  -- A page that is not full is the end of the list.
  pub drop-nil : (n : ℕ) (xs : List A) → length (take n xs) < n → drop n xs ≡ []
  drop-nil zero xs h = absurd (omega arith)
  drop-nil (suc n) [] h = refl
  drop-nil (suc n) (x ∷ xs) h = drop-nil n xs (omega arith)

  pub All-last_or {κ} :
      (P : A → Type κ) (n : ℕ) (d : A) (xs : List A) → P d → All P xs → P (last_or d (take n xs))
  All-last_or P zero d xs h a = h
  All-last_or P (suc n) d [] h a = h
  All-last_or P (suc n) d (x ∷ xs) h (p, a) = All-last_or P n x xs p a

  pub All-map {κ μ} :
      (P : A → Type κ) (Q : A → Type μ)
      → ((x : A) → P x → Q x)
      → (xs : List A) → All P xs
      → All Q xs
  All-map P Q f [] a = tt
  All-map P Q f (x ∷ xs) (p, a) = (f x p, All-map P Q f xs a)

  pub All-select {κ} :
      (P : A → Type κ) (q : A → Bool) (xs : List A) → All P xs → All P (select q xs)
  unfolding select
  All-select P q [] a = tt
  All-select P q (x ∷ xs) (p, a) = elim (Bool-cases (q x)) [
    | inl e ↦ rw e (p, All-select P q xs a)
    | inr e ↦ rw e (All-select P q xs a)
  ]

  pub All-insert_sorted {κ} :
      (P : A → Type κ) (lt : A → A → Bool) (x : A) (ys : List A)
      → P x
      → All P ys
      → All P (insert_sorted lt x ys)
  unfolding insert_sorted
  All-insert_sorted P lt x [] p a = (p, tt)
  All-insert_sorted P lt x (y ∷ ys) p (q, a) = elim (Bool-cases (lt y x)) [
    | inl e ↦ rw e (q, All-insert_sorted P lt x ys p a)
    | inr e ↦ rw e (p, (q, a))
  ]

  pub All-sort_by {κ} :
      (P : A → Type κ) (lt : A → A → Bool) (xs : List A) → All P xs → All P (sort_by lt xs)
  unfolding sort_by
  All-sort_by P lt [] a = tt
  All-sort_by P lt (x ∷ xs) (p, a) =
      All-insert_sorted P lt x (sort_by lt xs) p (All-sort_by P lt xs a)

  -- Every two rows compare, one way or the other.
  abbrev pub Comparable : (A → A → Bool) → List A → Type ℓ
  Comparable lt [] = Unit
  Comparable lt (x ∷ xs) = All (λ y. (lt x y || lt y x) ≡ true) xs × Comparable lt xs

  abbrev pub Ascending : (A → A → Bool) → List A → Type ℓ
  Ascending lt [] = Unit
  Ascending lt (x ∷ xs) = All (λ y. lt x y ≡ true) xs × Ascending lt xs

  pub Comparable-select :
      (lt : A → A → Bool) (q : A → Bool) (xs : List A)
      → Comparable lt xs
      → Comparable lt (select q xs)
  unfolding select
  Comparable-select lt q [] c = tt
  Comparable-select lt q (x ∷ xs) (a, c) = elim (Bool-cases (q x)) [
    | inl e ↦ rw e (All-select _ q xs a, Comparable-select lt q xs c)
    | inr e ↦ rw e (Comparable-select lt q xs c)
  ]

  pub Ascending-select :
      (lt : A → A → Bool) (q : A → Bool) (xs : List A)
      → Ascending lt xs
      → Ascending lt (select q xs)
  unfolding select
  Ascending-select lt q [] c = tt
  Ascending-select lt q (x ∷ xs) (a, c) = elim (Bool-cases (q x)) [
    | inl e ↦ rw e (All-select _ q xs a, Ascending-select lt q xs c)
    | inr e ↦ rw e (Ascending-select lt q xs c)
  ]

  pub select-passes : (q : A → Bool) (xs : List A) → All (λ x. q x ≡ true) (select q xs)
  unfolding select
  select-passes q [] = tt
  select-passes q (x ∷ xs) = elim (Bool-cases (q x)) [
    | inl e ↦ rw e (e, select-passes q xs)
    | inr e ↦ rw e (select-passes q xs)
  ]

  -- The last row of a page that is not empty is one of the list's.
  pub All-last_or_take {κ} :
      (P : A → Type κ) (n : ℕ) (d : A) (xs : List A)
      → All P xs
      → 0 < n
      → n ≤ length xs
      → P (last_or d (take n xs))
  All-last_or_take P zero d xs a p h = absurd (omega arith)
  All-last_or_take P (suc n) d [] a p h = absurd (omega arith)
  All-last_or_take P (suc n) d (x ∷ xs) (q, a) p h = All-last_or P n x xs q a

module _ {ℓ} {A : Type ℓ} (lt : A → A → Bool)
    (trans : (a b c : A) → lt a b ≡ true → lt b c ≡ true → lt a c ≡ true)
    (asym : (a b : A) → lt a b ≡ true → lt b a ≡ false) where
  insert-Ascending :
      (x : A) (ys : List A)
      → All (λ y. (lt x y || lt y x) ≡ true) ys
      → Ascending lt ys
      → Ascending lt (insert_sorted lt x ys)
  unfolding insert_sorted
  insert-Ascending x [] c s = (tt, tt)
  insert-Ascending x (y ∷ ys) (c, cs) (a, s) = elim (Bool-cases (lt y x)) [
    | inl e ↦ rw e (All-insert_sorted (λ z. lt y z ≡ true) lt x ys e a, insert-Ascending x ys cs s)
    | inr e ↦
        let first : lt x y ≡ true = ground arith in
        rw e ((first, All-map _ _ (λ z h. trans x y z first h) ys a), (a, s))
  ]

  pub sort_by-Ascending : (xs : List A) → Comparable lt xs → Ascending lt (sort_by lt xs)
  unfolding sort_by
  sort_by-Ascending [] c = tt
  sort_by-Ascending (x ∷ xs) (a, c) =
      insert-Ascending x (sort_by lt xs) (All-sort_by _ lt xs a) (sort_by-Ascending xs c)

  pub insert_front :
      (x : A) (zs : List A) → All (λ z. lt x z ≡ true) zs → insert_sorted lt x zs ≡ x ∷ zs
  unfolding insert_sorted
  insert_front x [] a = refl
  insert_front x (z ∷ zs) (h, a) = rw (asym x z h) refl

  select-insert_out :
      (p : A → Bool) (x : A) (ys : List A)
      → p x ≡ false
      → select p (insert_sorted lt x ys) ≡ select p ys
  unfolding select insert_sorted
  select-insert_out p x [] h = rw h refl
  select-insert_out p x (y ∷ ys) h = elim (Bool-cases (lt y x)) [
    | inl e ↦ rw (e, select-insert_out p x ys h) refl
    | inr e ↦ rw (e, h) refl
  ]

  select-insert_in :
      (p : A → Bool) (x : A) (ys : List A)
      → p x ≡ true
      → All (λ y. (lt x y || lt y x) ≡ true) ys
      → Ascending lt ys
      → select p (insert_sorted lt x ys) ≡ insert_sorted lt x (select p ys)
  unfolding select insert_sorted
  select-insert_in p x [] h c s = rw h refl
  select-insert_in p x (y ∷ ys) h (c, cs) (a, s) = elim (Bool-cases (lt y x)) [
    | inl e ↦ elim (Bool-cases (p y)) [
      | inl hit ↦ rw (e, hit, e, select-insert_in p x ys h cs s) refl
      | inr miss ↦ rw (e, miss, select-insert_in p x ys h cs s) refl
    ]
    | inr e ↦ elim (Bool-cases (p y)) [
      | inl hit ↦ rw (e, h, hit, e) refl
      | inr miss ↦
          let first : lt x y ≡ true = ground arith in
          let behind = All-map _ (λ z. lt x z ≡ true) (λ z k. trans x y z first k) ys a in
          rw (e, h, miss) (sym (insert_front x (select p ys) (All-select _ p ys behind)))
    ]
  ]

  -- A filter may come before the sort or behind it.
  pub select-sort_by :
      (p : A → Bool) (xs : List A)
      → Comparable lt xs
      → select p (sort_by lt xs) ≡ sort_by lt (select p xs)
  unfolding select sort_by
  select-sort_by p [] c = refl
  select-sort_by p (x ∷ xs) (a, c) = elim (Bool-cases (p x)) [
    | inl e ↦
        rw (e, ← select-sort_by p xs c)
          (select-insert_in p x (sort_by lt xs) e (All-sort_by _ lt xs a) (sort_by-Ascending xs c))
    | inr e ↦ rw (e, ← select-sort_by p xs c) (select-insert_out p x (sort_by lt xs) e)
  ]

  pub select-All : (p : A → Bool) (xs : List A) → All (λ x. p x ≡ true) xs → select p xs ≡ xs
  unfolding select
  select-All p [] a = refl
  select-All p (x ∷ xs) (h, a) = rw (h, select-All p xs a) refl

  -- The rows behind the last one of a full page are the rest of the list.
  pub select-behind :
      (n : ℕ) (d : A) (xs : List A)
      → Ascending lt xs
      → 0 < n
      → n ≤ length xs
      → select (lt (last_or d (take n xs))) xs ≡ drop n xs
  unfolding select
  select-behind zero d xs s h k = absurd (omega arith)
  select-behind (suc n) d [] s h k = absurd (omega arith)
  select-behind (suc zero) d (x ∷ xs) (a, s) h k =
      let irrefl : lt x x ≡ false = ground (arith, asym x x) in
      rw (irrefl, select-All (lt x) xs a) refl
  select-behind (suc (suc n)) d (x ∷ []) s h k = absurd (omega arith)
  select-behind (suc (suc n)) d (x ∷ y ∷ xs) (a, s) h k =
      let later = All-last_or (λ z. lt x z ≡ true) n y xs a.0 a.1 in
      rw (asym _ _ later) (select-behind (suc n) x (y ∷ xs) s (omega arith) (omega arith))

  -- A filter for what comes behind a row, behind a later row, is the later one.
  pub select-select_behind :
      (a b : A) (xs : List A) → lt a b ≡ true → select (lt b) (select (lt a) xs) ≡ select (lt b) xs
  unfolding select
  select-select_behind a b [] h = refl
  select-select_behind a b (x ∷ xs) h = elim (Bool-cases (lt a x)) [
    | inl e ↦ rw (e, select-select_behind a b xs h) refl
    | inr e ↦
        let off : lt b x ≡ false = elim (Bool-cases (lt b x)) [
          | inl later ↦ cc (trans a b x h later)
          | inr k ↦ k
        ] in
        rw (e, off) (select-select_behind a b xs h)
  ]
