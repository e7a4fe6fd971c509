-- ===== src/Api/Account.antt =====
-- Users and sessions: register, login and logout of internal/api/auth.go, and the password hashes of
-- password.go. A hash is put together from bytes, and is a list of them here.
pub mod Hashes
pub mod Sessions
use job_scheduling.Base.{
  ℕ, ◌+◌, ◌*◌, ◌^◌, ◌%◌, Bool, true, false, not, ◌&&◌, ◌||◌, Option, none, some, List, [], ◌∷◌,
  ◌++◌, String, str_eq, ltb, leb, ◌==◌, if◌then◌else◌, find, exists, modify, length,
}
use job_scheduling.Store.{is_set}
use job_scheduling.Api.Problem.{
  ApiReply, done, refused, bad_request, unauthorized, conflict, internal, ◌>>=◌, ◌>>◌, require,
}
use job_scheduling.Api.Submit.{expect, is_empty}
use job_scheduling.Api.Access.{Session, Accounts}

-- What the handlers take from other libraries: strings.TrimSpace, ToLower and Contains, the length of a
-- text in bytes, argon2.IDKey (of a password, a salt, passes, memory, threads and the length of the
-- key) and base64.RawStdEncoding.
pub record Secrets : Type 0 where
  pub trim : String → String
  pub lower : String → String
  pub has_at : String → Bool
  pub bytes : String → ℕ
  pub derive : String → List ℕ → ℕ → ℕ → ℕ → ℕ → List ℕ
  pub encode64 : List ℕ → List ℕ
  pub decode64 : List ℕ → Option (List ℕ)

abbrev pub dollar : ℕ
dollar = b'$'

-- "argon2id", "v=19" and "m=65536,t=2,p=4".
abbrev pub scheme : List ℕ
scheme = b'a' ∷ b'r' ∷ b'g' ∷ b'o' ∷ b'n' ∷ b'2' ∷ b'i' ∷ b'd' ∷ []

abbrev pub version : List ℕ
version = b'v' ∷ b'=' ∷ b'1' ∷ b'9' ∷ []

abbrev pub parameters : List ℕ
parameters =
    b'm' ∷ b'=' ∷ b'6' ∷ b'5' ∷ b'5' ∷ b'3' ∷ b'6' ∷ b',' ∷ b't' ∷ b'=' ∷ b'2' ∷ b',' ∷ b'p' ∷ b'='
    ∷ b'4' ∷ []

abbrev pub key_of : Secrets → List ℕ → String → List ℕ
key_of c salt pw = c.derive pw salt 2 65536 4 32

-- hashPassword; `salt` is what rand.Read gives.
unfoldable pub hash_password : Secrets → List ℕ → String → List ℕ
hash_password c salt pw =
    dollar ∷ scheme
    ++ dollar ∷ version
    ++ dollar ∷ parameters
    ++ dollar ∷ c.encode64 salt
    ++ dollar ∷ c.encode64 (key_of c salt pw)

-- strings.Split.
abbrev pub glue : ℕ → List (List ℕ) → List (List ℕ)
glue x [] = (x ∷ []) ∷ []
glue x (p ∷ ps) = (x ∷ p) ∷ ps

unfoldable pub split : ℕ → List ℕ → List (List ℕ)
split sep [] = [] ∷ []
split sep (x ∷ xs) = let rest = split sep xs in if x == sep then [] ∷ rest else glue x rest

-- Equality of byte slices: `==` of texts, and subtle.ConstantTimeCompare.
unfoldable pub same_bytes : List ℕ → List ℕ → Bool
same_bytes [] [] = true
same_bytes (x ∷ xs) (y ∷ ys) = x == y && same_bytes xs ys
same_bytes _ _ = false

-- fmt.Sscanf: a literal, and a number (%d) of one digit at least with what is behind it. A sign or blanks
-- before a number, which Sscanf allows and no stored hash has, are left out.
unfoldable pub scan_literal : List ℕ → List ℕ → Option (List ℕ)
scan_literal [] xs = some xs
scan_literal (l ∷ ls) [] = none
scan_literal (l ∷ ls) (x ∷ xs) = if l == x then scan_literal ls xs else none

abbrev is_digit : ℕ → Bool
is_digit x = leb b'0' x && leb x b'9'

unfoldable pub scan_digits : ℕ → List ℕ → ℕ × List ℕ
scan_digits n [] = (n, [])
scan_digits n (x ∷ xs) =
    let rest = scan_digits (n * 10 + x % 16) xs in if is_digit x then rest else (n, x ∷ xs)

unfoldable pub scan_number : List ℕ → Option (ℕ × List ℕ)
unfolding scan_digits
scan_number [] = none
scan_number (x ∷ xs) = if is_digit x then some (scan_digits 0 (x ∷ xs)) else none

-- A literal and the number behind it, which a variable of `2 ^ w` values holds.
unfoldable pub scan_field : ℕ → List ℕ → List ℕ → Option (ℕ × List ℕ)
unfolding scan_literal scan_number
scan_field w lit xs = elim (scan_literal lit xs) [
  | none ↦ none
  | some ys ↦ elim (scan_number ys) [
    | none ↦ none
    | some (n, zs) ↦ if ltb n (2 ^ w) then some (n, zs) else none
  ]
]

abbrev pub bad_hash : {A : Type 0} → Option A → ApiReply A
bad_hash o = expect o internal

-- "m=%d,t=%d,p=%d".
unfoldable pub scan_parameters : List ℕ → ApiReply (ℕ × ℕ × ℕ)
unfolding scan_field
scan_parameters xs = do
  memory ← bad_hash (scan_field 32 (b'm' ∷ b'=' ∷ []) xs)
  passes ← bad_hash (scan_field 32 (b',' ∷ b't' ∷ b'=' ∷ []) memory.1)
  threads ← bad_hash (scan_field 8 (b',' ∷ b'p' ∷ b'=' ∷ []) passes.1)
  done (memory.0, passes.0, threads.0)

-- verifyPassword, for the parts of the hash.
unfoldable pub verify_parts : Secrets → String → List (List ℕ) → ApiReply Bool
unfolding scan_field scan_parameters same_bytes
verify_parts c pw (front ∷ name ∷ v ∷ ps ∷ s ∷ k ∷ []) = do
  require (same_bytes name scheme) internal
  _ ← bad_hash (scan_field 63 (b'v' ∷ b'=' ∷ []) v)
  numbers ← scan_parameters ps
  salt ← bad_hash (c.decode64 s)
  want ← bad_hash (c.decode64 k)
  let (memory, passes, threads) = numbers
  done (same_bytes (c.derive pw salt passes memory threads (length want)) want)
verify_parts c pw _ = refused internal

-- verifyPassword.
unfoldable pub verify_password : Secrets → String → List ℕ → ApiReply Bool
unfolding split verify_parts
verify_password c pw encoded = verify_parts c pw (split dollar encoded)

pub record User : Type 0 where
  pub id : ℕ
  pub email : String
  pub hash : List ℕ

-- The table users, beside the others that say who may call.
pub record Directory : Type 0 where
  pub users : List User
  pub accounts : Accounts

-- registerReq and loginReq; a user's name is only shown.
pub record SignIn : Type 0 where
  pub email : String
  pub password : String

abbrev pub address : Secrets → String → String
address c email = c.lower (c.trim email)

abbrev pub has_email : String → User → Bool
has_email email u = str_eq u.email email

-- register: the new user's id is `fresh`.
unfoldable pub register : Secrets → List ℕ → ℕ → SignIn → Directory → ApiReply (ℕ × Directory)
unfolding hash_password
register c salt fresh req dir = do
  let email = address c req.email
  require (not (is_empty email) && c.has_at email) (bad_request "valid email required")
  require (leb 8 (c.bytes req.password)) (bad_request "password must be at least 8 characters")
  require (not (exists (has_email email) dir.users)) (conflict "email already registered")
  let user : User = record { id = fresh; email = email; hash = hash_password c salt req.password }
  done (fresh, record dir { users = user ∷ dir.users })

-- sessionTTL: thirty days.
abbrev pub session_ttl : ℕ
session_ttl = 2592000000000

abbrev pub new_session : ℕ → ℕ → ℕ → Session
new_session now sid user = record {
  id = sid;
  user = user;
  revoked_at = none;
  expires_at = now + session_ttl;
}

abbrev pub add_session : Session → Directory → Directory
add_session s dir = record dir {
  accounts = record dir.accounts { sessions = s ∷ dir.accounts.sessions };
}

-- login: `sid` is what uuid.NewRandom gives.
unfoldable pub login : Secrets → ℕ → ℕ → SignIn → Directory → ApiReply (Session × Directory)
unfolding verify_password
login c now sid req dir = do
  user ← expect (find (has_email (address c req.email)) dir.users) unauthorized
  ok ← verify_password c req.password user.hash
  require ok unauthorized
  let s = new_session now sid user.id
  done (s, add_session s dir)

abbrev pub is_unrevoked : ℕ → Session → Bool
is_unrevoked sid s = s.id == sid && not (is_set s.revoked_at)

abbrev pub revoked : ℕ → Session → Session
revoked now s = record s { revoked_at = some now }

-- logout.
unfoldable pub logout : ℕ → ℕ → Directory → Directory
logout now sid dir = record dir {
  accounts = record dir.accounts {
    sessions = modify (is_unrevoked sid) (revoked now) dir.accounts.sessions;
  };
}
