-- ===== src/Api/Account/Hashes.antt =====
-- What verifyPassword makes of a hash that hashPassword made (internal/api/password.go).
use job_scheduling.Base.{
  ℕ, ◌≡◌, refl, ◌∙◌, ap, true, false, some, List, [], ◌∷◌, ◌++◌, String, arith, ◌==◌, length,
  exists, All,
}
use job_scheduling.Api.Problem.{done, ◌>>=◌}
use job_scheduling.Api.Account.{
  Secrets, dollar, scheme, version, parameters, key_of, hash_password, split, same_bytes,
  scan_literal, scan_digits, scan_number, scan_field, scan_parameters, verify_parts,
  verify_password,
}

abbrev LacksSep : ℕ → List ℕ → Type 0
LacksSep sep xs = All (λ x. (x == sep) ≡ false) xs

lacks : (sep : ℕ) (xs : List ℕ) → exists (λ x. x == sep) xs ≡ false → LacksSep sep xs
unfolding exists
lacks sep [] h = tt
lacks sep (x ∷ xs) h = (ground arith, lacks sep xs (ground arith))

split-nil : (sep : ℕ) (xs : List ℕ) → LacksSep sep xs → split sep xs ≡ xs ∷ []
unfolding split
split-nil sep [] a = refl
split-nil sep (x ∷ xs) (h, a) = rw (h, split-nil sep xs a) refl

split-append :
    (sep : ℕ) (xs ys : List ℕ) → LacksSep sep xs → split sep (xs ++ sep ∷ ys) ≡ xs ∷ split sep ys
unfolding split
split-append sep [] ys a = let e : (sep == sep) ≡ true = ground arith in rw e refl
split-append sep (x ∷ xs) ys (h, a) = rw (h, split-append sep xs ys a) refl

pub same_bytes_refl : (xs : List ℕ) → same_bytes xs xs ≡ true
unfolding same_bytes
same_bytes_refl [] = refl
same_bytes_refl (x ∷ xs) = ground (arith, same_bytes_refl xs)

-- What the code relies on of argon2 and base64: a key has the length that is asked for, what is
-- encoded is read back, and no dollar sign is in it.
pub record IsSound (c : Secrets) : Type 0 where
  pub sized : (pw : String) (salt : List ℕ) (t m p n : ℕ) → length (c.derive pw salt t m p n) ≡ n
  pub read_back : (xs : List ℕ) → c.decode64 (c.encode64 xs) ≡ some xs
  pub plain : (xs : List ℕ) → All (λ x. (x == dollar) ≡ false) (c.encode64 xs)

split-hash_password :
    (c : Secrets) (salt : List ℕ) (pw : String)
    → IsSound c
    → split dollar (hash_password c salt pw)
      ≡ [] ∷ scheme ∷ version ∷ parameters ∷ c.encode64 salt ∷ c.encode64 (key_of c salt pw) ∷ []
unfolding hash_password exists
split-hash_password c salt pw sound =
    let k = c.encode64 (key_of c salt pw) in
    let s = c.encode64 salt in
    let last = split-nil dollar k (sound.plain (key_of c salt pw)) in
    let salted = split-append dollar s k (sound.plain salt) ∙ ap (◌∷◌ s) last in
    let numbers =
      split-append dollar parameters (s ++ dollar ∷ k) (lacks dollar parameters refl)
      ∙ ap (◌∷◌ parameters) salted in
    let versioned =
      split-append dollar version (parameters ++ dollar ∷ s ++ dollar ∷ k)
        (lacks dollar version refl)
      ∙ ap (◌∷◌ version) numbers in
    let named =
      split-append dollar scheme (version ++ dollar ∷ parameters ++ dollar ∷ s ++ dollar ∷ k)
        (lacks dollar scheme refl)
      ∙ ap (◌∷◌ scheme) versioned in
    split-append dollar []
      (scheme ++ dollar ∷ version ++ dollar ∷ parameters ++ dollar ∷ s ++ dollar ∷ k) tt
    ∙ ap (◌∷◌ []) named

-- A password passes against a hash that hashPassword made of another where argon2 derives the
-- same key from both, under the salt of the hash.
pub verify_password-hash_password :
    (c : Secrets) (salt : List ℕ) (pw pw' : String)
    → IsSound c
    → verify_password c pw' (hash_password c salt pw)
      ≡ done (same_bytes (key_of c salt pw') (key_of c salt pw))
unfolding verify_password verify_parts scan_parameters scan_field scan_literal scan_number
    scan_digits ◌>>=◌ same_bytes
verify_password-hash_password c salt pw pw' sound =
    ap (verify_parts c pw') (split-hash_password c salt pw sound)
    ∙ rw
        (sound.read_back salt, sound.read_back (key_of c salt pw), sound.sized pw salt 2 65536 4 32)
        refl
