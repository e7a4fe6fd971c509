-- ===== src/Api/Keys.antt =====
-- Unique keys of tables: what an insert and an update by id keep of them.
use job_scheduling.Base.{
  ◌≡◌, refl, ◌∙◌, Bool, false, List, [], ◌∷◌, arith, exists, modify, select, All, All-select,
  Bool-cases, inl, inr,
}

module _ {ℓ} {A : Type ℓ} where
  pub exists-modify :
      (q p : A → Bool) (y : A) (xs : List A)
      → exists q xs ≡ false
      → q y ≡ false
      → exists q (modify p (λ x. y) xs) ≡ false
  unfolding exists modify
  exists-modify q p y [] h k = refl
  exists-modify q p y (x ∷ xs) h k = elim (Bool-cases (p x)) [
    | inl e ↦ ground arith
    | inr e ↦ ground (arith, exists-modify q p y xs)
  ]

  pub exists-select :
      (q p : A → Bool) (xs : List A) → exists q xs ≡ false → exists q (select p xs) ≡ false
  unfolding exists select
  exists-select q p [] h = refl
  exists-select q p (x ∷ xs) h = ground (arith, exists-select q p xs)

  pub All-modify {κ} :
      (P : A → Type κ) (p : A → Bool) (y : A) (xs : List A)
      → P y
      → All P xs
      → All P (modify p (λ x. y) xs)
  unfolding modify
  All-modify P p y [] h a = tt
  All-modify P p y (x ∷ xs) h (k, a) = elim (Bool-cases (p x)) [
    | inl e ↦ rw e (h, a)
    | inr e ↦ rw e (k, All-modify P p y xs h a)
  ]

-- No two rows clash.
abbrev pub Keyed {ℓ} : {A : Type ℓ} → (A → A → Bool) → List A → Type 0
Keyed clash xs = All (λ x. exists (clash x) xs ≡ false) xs

module _ {ℓ} {A : Type ℓ} (clash : A → A → Bool) (comm : (x y : A) → clash x y ≡ clash y x)
    (apart : (x : A) → clash x x ≡ false) where
  All-clash : (y : A) (xs : List A) → exists (clash y) xs ≡ false → All (λ x. clash x y ≡ false) xs
  unfolding exists
  All-clash y [] h = tt
  All-clash y (x ∷ xs) h = (comm x y ∙ ground arith, All-clash y xs (ground arith))

  All-both {κ} :
      (P Q : A → Type κ) (R : A → Type κ)
      → ((x : A) → P x → Q x → R x)
      → (xs : List A) → All P xs
      → All Q xs
      → All R xs
  All-both P Q R f [] a b = tt
  All-both P Q R f (x ∷ xs) (p, a) (q, b) = (f x p q, All-both P Q R f xs a b)

  pub Keyed-cons :
      (y : A) (xs : List A) → exists (clash y) xs ≡ false → Keyed clash xs → Keyed clash (y ∷ xs)
  unfolding exists
  Keyed-cons y xs h a = (rw (apart y) h, All-both _ _ _ (λ x c k. rw c k) xs (All-clash y xs h) a)

  pub Keyed-modify :
      (p : A → Bool) (y : A) (xs : List A)
      → exists (clash y) xs ≡ false
      → Keyed clash xs
      → Keyed clash (modify p (λ x. y) xs)
  Keyed-modify p y xs h a =
      All-modify _ p y xs (exists-modify (clash y) p y xs h (apart y))
        (All-both _ _ _ (λ x c k. exists-modify (clash x) p y xs k c) xs (All-clash y xs h) a)

  pub Keyed-select : (p : A → Bool) (xs : List A) → Keyed clash xs → Keyed clash (select p xs)
  Keyed-select p xs a =
      All-select _ p xs (All-both _ _ _ (λ x k l. exists-select (clash x) p xs k) xs a a)
