-- ===== src/Examples/AccountExamples.antt =====
-- The theorem on sign-in of internal/api/auth.go, applied.
use job_scheduling.Base.{
  ℕ, zero, suc, ◌+◌, ◌-◌, ◌≡◌, refl, ap, true, false, none, some, List, [], ◌∷◌, str_eq, arith,
  ◌==◌, if◌then◌else◌, find, exists, length, All,
}
use job_scheduling.Api.Problem.{done, refused, unauthorized, ◌>>=◌}
use job_scheduling.Api.Access.{Credentials, bearer, authuser}
use job_scheduling.Api.Account.{
  Secrets, dollar, hash_password, same_bytes, key_of, SignIn, Directory, register, new_session,
  login, logout,
}
use job_scheduling.Api.Account.Hashes.{IsSound}
use job_scheduling.Api.Account.Sessions.{answer, signed_in, sign_in_lem}

unfoldable fill : ℕ → ℕ → List ℕ
fill zero x = []
fill (suc n) x = x ∷ fill n x

length-fill : (n x : ℕ) → length (fill n x) ≡ n
unfolding fill
length-fill zero x = refl
length-fill (suc n) x = omega (arith, length-fill n x)

unfoldable shift : List ℕ → List ℕ
shift [] = []
shift (x ∷ xs) = (x + 37) ∷ shift xs

unfoldable unshift : List ℕ → List ℕ
unshift [] = []
unshift (x ∷ xs) = (x - 37) ∷ unshift xs

unshift-shift : (xs : List ℕ) → unshift (shift xs) ≡ xs
unfolding shift unshift
unshift-shift [] = refl
unshift-shift (x ∷ xs) = let e : x + 37 - 37 ≡ x = omega arith in rw (e, unshift-shift xs) refl

shift-plain : (xs : List ℕ) → All (λ x. (x == dollar) ≡ false) (shift xs)
unfolding shift
shift-plain [] = tt
shift-plain (x ∷ xs) = (ground arith, shift-plain xs)

abbrev secrets : Secrets
secrets = record {
  trim = λ s. s;
  lower = λ s. s;
  has_at = λ s. true;
  bytes = λ s. 9;
  derive = λ pw salt t m p n. fill n (if str_eq pw "open door" then 1 else 2);
  encode64 = shift;
  decode64 = λ xs. some (unshift xs);
}

secrets-IsSound : IsSound secrets
secrets-IsSound = record {
  sized = λ pw salt t m p n. length-fill n _;
  read_back = λ xs. ap some (unshift-shift xs);
  plain = shift-plain;
}

abbrev right : SignIn
right = record { email = "a@b"; password = "open door" }

abbrev wrong : SignIn
wrong = record { email = "a@b"; password = "shut door" }

abbrev nobody : Directory
nobody = record { users = []; accounts = record { sessions = []; projects = []; members = [] } }

abbrev somebody : Directory
somebody = record nobody {
  users = record { id = 4; email = "a@b"; hash = hash_password secrets (7 ∷ []) "open door" } ∷ [];
}

joined : register secrets (7 ∷ []) 4 right nobody ≡ done (4, somebody)
unfolding register ◌>>=◌ exists
joined = refl

abbrev token : Credentials
token = record { authorization = some "9"; cookie = none; protocols = [] }

sign_in_lem_example :
    (login secrets 100 9 wrong somebody
      ≡ answer 100 9 4 somebody
          (same_bytes (key_of secrets (7 ∷ []) "shut door") (key_of secrets (7 ∷ []) "open door")))
    × (login secrets 100 9 right somebody ≡ done (new_session 100 9 4, signed_in 100 9 4 somebody))
    × (authuser (λ s. some 9) 200 (signed_in 100 9 4 somebody).accounts token
        ≡ done (new_session 100 9 4))
    × (authuser (λ s. some 9) 2592000000100 (signed_in 100 9 4 somebody).accounts token
        ≡ refused unauthorized)
    × (authuser (λ s. some 9) 200 (logout 150 9 (signed_in 100 9 4 somebody)).accounts token
        ≡ refused unauthorized)
unfolding find bearer
sign_in_lem_example =
    sign_in_lem secrets (7 ∷ []) (λ s. some 9) token right wrong nobody somebody 4 4 100 9 150 200
      2592000000100 secrets-IsSound joined refl refl refl refl (omega arith) (omega arith)
