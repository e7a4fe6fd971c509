-- ===== src/Base/Tables.antt =====
-- Tables as lists of rows. A statement that names a row by its primary key changes the first row
-- that passes its `where`, since at most one can; any other changes all that pass.
use Prim.Native.Nat.{◌+◌}
use mathlib.Core.Path.{◌≡◌, refl, subst}
use mathlib.Core.Logic.{inl, inr}
use mathlib.Core.Bool.{Bool, true, false, not}
use mathlib.Core.Option.{Option, none, some}
use mathlib.Core.List.{List, [], ◌∷◌}
use native.Mathlib.Omega.{arith}
use job_scheduling.Base.Tests.{if◌then◌else◌, to_ℕ, Bool-cases}
use job_scheduling.Base.Lists.{count, select, All}

module _ {ℓ} {A : Type ℓ} where
  -- The row that a `where` by key selects.
  unfoldable pub find : (A → Bool) → List A → Option A
  find p [] = none
  find p (x ∷ xs) = if p x then some x else find p xs

  -- `update … where` by key.
  unfoldable pub modify : (A → Bool) → (A → A) → List A → List A
  modify p f [] = []
  modify p f (x ∷ xs) = if p x then f x ∷ xs else x ∷ modify p f xs

  -- `update … where`, for a set of rows.
  unfoldable pub update_all : (A → Bool) → (A → A) → List A → List A
  update_all p f [] = []
  update_all p f (x ∷ xs) = (if p x then f x else x) ∷ update_all p f xs

  -- `delete … where`.
  unfoldable pub delete_all : (A → Bool) → List A → List A
  unfolding select
  delete_all p xs = select (λ x. not (p x)) xs

  pub find_passes : (p : A → Bool) (xs : List A) (a : A) → find p xs ≡ some a → p a ≡ true
  unfolding find
  find_passes p [] a h = ground arith
  find_passes p (x ∷ xs) a h = elim (Bool-cases (p x)) [
    | inl e ↦ ground arith
    | inr e ↦ find_passes p xs a (ground arith)
  ]

  -- The row that a narrower test changes is the one that a wider test finds.
  pub find-All {κ} :
      (P : A → Type κ) (p : A → Bool) (xs : List A) (a : A) → find p xs ≡ some a → All P xs → P a
  unfolding find
  find-All P p [] a h k = ground arith
  find-All P p (x ∷ xs) a h (k, ks) = elim (Bool-cases (p x)) [
    | inl e ↦ let same : x ≡ a = ground arith in subst P same k
    | inr e ↦ find-All P p xs a (ground arith) ks
  ]

  pub find-modify :
      (p q : A → Bool) (f : A → A) (a : A)
      → ((x : A) → q x ≡ true → p x ≡ true)
      → q a ≡ true
      → p (f a) ≡ true
      → (xs : List A) → find p xs ≡ some a
      → (find q xs ≡ some a) × (find p (modify q f xs) ≡ some (f a))
  unfolding find modify
  find-modify p q f a n h k [] e = ground arith
  find-modify p q f a n h k (x ∷ xs) e = elim (Bool-cases (p x)) [
    | inl hit ↦
        let same : a ≡ x = ground arith in
        let here : q x ≡ true = subst (λ y. q y ≡ true) same h in
        let there : p (f x) ≡ true = subst (λ y. p (f y) ≡ true) same k in
        rw (here, there, same) (refl, refl)
    | inr miss ↦
        let off : q x ≡ false = ground (arith, n x) in
        rw (off, miss) (find-modify p q f a n h k xs (ground arith))
  ]

  pub modify-none : (p : A → Bool) (f : A → A) (xs : List A) → find p xs ≡ none → modify p f xs ≡ xs
  unfolding find modify
  modify-none p f [] h = refl
  modify-none p f (x ∷ xs) h = ground (arith, modify-none p f xs)

  -- How a count moves when one row changes.
  pub count-modify :
      (q p : A → Bool) (f : A → A) (xs : List A) (a : A)
      → find p xs ≡ some a
      → count q (modify p f xs) + to_ℕ (q a) ≡ count q xs + to_ℕ (q (f a))
  unfolding find modify count
  count-modify q p f [] a h = ground arith
  count-modify q p f (x ∷ xs) a h = elim (Bool-cases (p x)) [
    | inl e ↦ ground arith
    | inr e ↦ ground (arith, count-modify q p f xs a)
  ]

  -- A change that no test sees leaves the count alone.
  pub count-update_all :
      (q p : A → Bool) (f : A → A)
      → ((a : A) → p a ≡ true → q (f a) ≡ q a)
      → (xs : List A) → count q (update_all p f xs) ≡ count q xs
  unfolding update_all count
  count-update_all q p f same [] = refl
  count-update_all q p f same (x ∷ xs) = elim (Bool-cases (p x)) [
    | inl e ↦ ground (arith, same x e, count-update_all q p f same xs)
    | inr e ↦ ground (arith, count-update_all q p f same xs)
  ]

  pub count-modify_same :
      (q p : A → Bool) (f : A → A)
      → ((a : A) → p a ≡ true → q (f a) ≡ q a)
      → (xs : List A) → count q (modify p f xs) ≡ count q xs
  unfolding modify count
  count-modify_same q p f same [] = refl
  count-modify_same q p f same (x ∷ xs) = elim (Bool-cases (p x)) [
    | inl e ↦ ground (arith, same x e)
    | inr e ↦ ground (arith, count-modify_same q p f same xs)
  ]

  -- Row by row, one table is related to the next.
  pub data Rowwise {κ} (R : A → A → Type κ) : List A → List A → Type (ℓ ⊔ κ) where
    nil : Rowwise R [] []
    cons : {x y : A} {xs ys : List A} → R x y → Rowwise R xs ys → Rowwise R (x ∷ xs) (y ∷ ys)

module _ {ℓ κ} {A : Type ℓ} (R : A → A → Type κ) where
  pub Rowwise-refl : ((a : A) → R a a) → (xs : List A) → Rowwise R xs xs
  Rowwise-refl r [] = nil
  Rowwise-refl r (x ∷ xs) = cons (r x) (Rowwise-refl r xs)

  pub Rowwise-modify :
      (p : A → Bool) (f : A → A)
      → ((a : A) → R a a)
      → ((a : A) → p a ≡ true → R a (f a))
      → (xs : List A) → Rowwise R xs (modify p f xs)
  unfolding modify
  Rowwise-modify p f r h [] = nil
  Rowwise-modify p f r h (x ∷ xs) = elim (Bool-cases (p x)) [
    | inl e ↦ rw e (cons (h x e) (Rowwise-refl r xs))
    | inr e ↦ rw e (cons (r x) (Rowwise-modify p f r h xs))
  ]

  -- Only the row that is found needs to be related to its change.
  pub Rowwise-modify_found :
      (p : A → Bool) (f : A → A) (a : A)
      → ((x : A) → R x x)
      → R a (f a)
      → (xs : List A) → find p xs ≡ some a
      → Rowwise R xs (modify p f xs)
  unfolding find modify
  Rowwise-modify_found p f a r h [] e = nil
  Rowwise-modify_found p f a r h (x ∷ xs) e = elim (Bool-cases (p x)) [
    | inl hit ↦
        let same : a ≡ x = ground arith in
        rw hit (cons (subst (λ y. R y (f y)) same h) (Rowwise-refl r xs))
    | inr miss ↦ rw miss (cons (r x) (Rowwise-modify_found p f a r h xs (ground arith)))
  ]

  pub Rowwise-update_all :
      (p : A → Bool) (f : A → A)
      → ((a : A) → R a a)
      → ((a : A) → p a ≡ true → R a (f a))
      → (xs : List A) → Rowwise R xs (update_all p f xs)
  unfolding update_all
  Rowwise-update_all p f r h [] = nil
  Rowwise-update_all p f r h (x ∷ xs) = elim (Bool-cases (p x)) [
    | inl e ↦ rw e (cons (h x e) (Rowwise-update_all p f r h xs))
    | inr e ↦ rw e (cons (r x) (Rowwise-update_all p f r h xs))
  ]

  pub Rowwise-trans :
      ((a b c : A) → R a b → R b c → R a c)
      → {xs ys zs : List A} → Rowwise R xs ys
      → Rowwise R ys zs
      → Rowwise R xs zs
  Rowwise-trans t nil s = s
  Rowwise-trans t (cons h r) (cons h' s) = cons (t _ _ _ h h') (Rowwise-trans t r s)
