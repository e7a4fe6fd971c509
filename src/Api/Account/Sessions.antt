-- ===== src/Api/Account/Sessions.antt =====
-- Registration, login, the session, and logout, one after the other (internal/api/auth.go, authz.go).
use text.Mathlib.TextEquality.{eq_iff}
use job_scheduling.Base.{
  ℕ, ◌+◌, ◌≤◌, ◌<◌, ◌≡◌, refl, sym, ◌∙◌, ap, subst, Bool, true, false, Option, none, some, List, [],
  ◌∷◌, String, arith, ltb, ◌==◌, find, modify, if◌then◌else◌,
}
use job_scheduling.Api.Problem.{ApiReply, done, refused, unauthorized, ◌>>=◌, require}
use job_scheduling.Api.Submit.{expect, is_empty}
use job_scheduling.Api.Binds.{done-eq, bind-done}
use job_scheduling.Api.Access.{Session, Accounts, Credentials, bearer, is_live_session, authuser}
use job_scheduling.Api.Account.{
  Secrets, key_of, hash_password, same_bytes, verify_password, User, Directory, SignIn, address,
  has_email, register, session_ttl, new_session, add_session, login, is_unrevoked, revoked, logout,
}
use job_scheduling.Api.Account.Hashes.{IsSound, verify_password-hash_password, same_bytes_refl}

-- The user that a registration leaves at the head of the table.
registered :
    (c : Secrets) (salt : List ℕ) (fresh user : ℕ) (req : SignIn) (dir dir' : Directory)
    → register c salt fresh req dir ≡ done (user, dir')
    → (user ≡ fresh)
      × (dir' ≡ record dir {
        users =
            record {
              id = fresh;
              email = address c req.email;
              hash = hash_password c salt req.password;
            }
            ∷ dir.users;
      })
unfolding register
registered c salt fresh user req dir dir' h =
    let (u, addressed, h1) = bind-done _ _ _ h in
    let (v, long, h2) = bind-done _ _ _ h1 in
    let (w, unused, h3) = bind-done _ _ _ h2 in
    let e = done-eq _ (user, dir') h3 in
    (sym (ap (λ (r : ℕ × Directory). r.0) e), sym (ap (λ (r : ℕ × Directory). r.1) e))

-- What login answers to a user at the head of the table, for the verdict on the password.
abbrev pub answer : ℕ → ℕ → ℕ → Directory → Bool → ApiReply (Session × Directory)
answer now sid user dir true =
    done (new_session now sid user, add_session (new_session now sid user) dir)
answer now sid user dir false = refused unauthorized

login-head :
    (c : Secrets) (now sid : ℕ) (req : SignIn) (u : User) (dir : Directory) (ok : Bool)
    → u.email ≡ address c req.email
    → verify_password c req.password u.hash ≡ done ok
    → login c now sid req (record dir { users = u ∷ dir.users })
      ≡ answer now sid u.id (record dir { users = u ∷ dir.users }) ok
unfolding login find ◌>>=◌
login-head c now sid req u dir ok named verified =
    let hit : has_email (address c req.email) u ≡ true =
      (eq_iff u.email (address c req.email)).1 named in
    rw (hit, verified) (decided ok)
  where
    decided :
        (b : Bool)
        → (require b unauthorized >>= λ _. done (
          new_session now sid u.id,
          add_session (new_session now sid u.id) (record dir { users = u ∷ dir.users }),
        ))
          ≡ answer now sid u.id (record dir { users = u ∷ dir.users }) b
    decided true = refl
    decided false = refl

-- A session that has been revoked is found under no other row, where its id is new.
gone :
    (late sid : ℕ) (rows : List Session)
    → find (λ s. s.id == sid) rows ≡ none
    → find (is_live_session late sid) rows ≡ none
unfolding find is_live_session
gone late sid [] h = refl
gone late sid (s ∷ rows) h = ground (arith, gone late sid rows)

authuser-known :
    (parse : String → Option ℕ) (late sid : ℕ) (acc : Accounts) (cred : Credentials)
    → is_empty (bearer cred) ≡ false
    → parse (bearer cred) ≡ some sid
    → authuser parse late acc cred
      ≡ expect (find (is_live_session late sid) acc.sessions) unauthorized
unfolding authuser ◌>>=◌
authuser-known parse late sid acc cred h k = rw (h, k) refl

-- The directory after a login.
abbrev pub signed_in : ℕ → ℕ → ℕ → Directory → Directory
signed_in now sid user dir = add_session (new_session now sid user) dir

live :
    (now sid user late : ℕ) (rows : List Session)
    → find (is_live_session late sid) (new_session now sid user ∷ rows) ≡ (
        if ltb late (now + session_ttl)
        then some (new_session now sid user)
        else find (is_live_session late sid) rows)
unfolding find is_live_session
live now sid user late rows = let same : (sid == sid) ≡ true = ground arith in rw same refl

revoked_away :
    (now sid user at late : ℕ) (rows : List Session)
    → find (λ s. s.id == sid) rows ≡ none
    → find
        (is_live_session late sid)
        (modify (is_unrevoked sid) (revoked at) (new_session now sid user ∷ rows))
      ≡ none
unfolding find modify is_live_session
revoked_away now sid user at late rows h =
    let same : (sid == sid) ≡ true = ground arith in rw (same, same) (gone late sid rows h)

login-registered :
    (c : Secrets) (salt : List ℕ) (fresh user now sid : ℕ) (req req' : SignIn)
    (dir dir' : Directory)
    → IsSound c
    → register c salt fresh req dir ≡ done (user, dir')
    → address c req'.email ≡ address c req.email
    → login c now sid req' dir'
      ≡ answer now sid user dir'
          (same_bytes (key_of c salt req'.password) (key_of c salt req.password))
login-registered c salt fresh user now sid req req' dir dir' sound h same =
    let (id, after) = registered c salt fresh user req dir dir' h in
    let u : User = record {
      id = fresh;
      email = address c req.email;
      hash = hash_password c salt req.password;
    } in
    let ok = same_bytes (key_of c salt req'.password) (key_of c salt req.password) in
    let at_head =
      login-head c now sid req' u dir ok (sym same)
        (verify_password-hash_password c salt req.password req'.password sound) in
    subst (λ d. login c now sid req' d ≡ answer now sid user d ok) (sym after)
      (subst
        (λ i.
          login c now sid req' (record dir { users = u ∷ dir.users })
          ≡ answer now sid i (record dir { users = u ∷ dir.users }) ok)
        (sym id) at_head)

-- After a registration, a login under the same address, whatever its case and the blanks around it,
-- is answered by the password: it is let in exactly where argon2 derives the key of the
-- registered one from it, and the registered one itself is. A login that is let in makes a session
-- of the registered user, under an id that no session has. A request whose token is that id then
-- comes from that session until thirty days after the login and from nobody after that; and once
-- the session has logged out, from nobody. Argon2's keys have the length that is asked for, base64
-- reads back what it writes, and it writes no dollar sign.
pub sign_in_lem :
    (c : Secrets) (salt : List ℕ) (parse : String → Option ℕ) (cred : Credentials)
    (req req' : SignIn) (dir dir' : Directory) (fresh user now sid at early late : ℕ)
    → IsSound c
    → register c salt fresh req dir ≡ done (user, dir')
    → address c req'.email ≡ address c req.email
    → find (λ s. s.id == sid) dir'.accounts.sessions ≡ none
    → is_empty (bearer cred) ≡ false
    → parse (bearer cred) ≡ some sid
    → early < now + session_ttl
    → now + session_ttl ≤ late
    → (login c now sid req' dir'
        ≡ answer now sid user dir'
            (same_bytes (key_of c salt req'.password) (key_of c salt req.password)))
      × (login c now sid req dir' ≡ done (new_session now sid user, signed_in now sid user dir'))
      × (authuser parse early (signed_in now sid user dir').accounts cred
          ≡ done (new_session now sid user))
      × (authuser parse late (signed_in now sid user dir').accounts cred ≡ refused unauthorized)
      × (authuser parse early (logout at sid (signed_in now sid user dir')).accounts cred
          ≡ refused unauthorized)
unfolding logout
sign_in_lem c salt parse cred req req' dir dir' fresh user now sid at early late sound h same new
      told known soon over =
    let before : ltb early (now + session_ttl) ≡ true = ground arith in
    let past : ltb late (now + session_ttl) ≡ false = ground arith in
    let rows = dir'.accounts.sessions in
    let asks = λ (t : ℕ) (acc : Accounts). authuser-known parse t sid acc cred told known in
    let away : find (is_live_session late sid) rows ≡ none = gone late sid rows new in
    (
      login-registered c salt fresh user now sid req req' dir dir' sound h same,
      login-registered c salt fresh user now sid req req dir dir' sound h refl
          ∙ ap (answer now sid user dir') (same_bytes_refl (key_of c salt req.password)),
      asks early _ ∙ rw (live now sid user early rows, before) refl,
      asks late _ ∙ rw (live now sid user late rows, past, away) refl,
      asks early _ ∙ rw (revoked_away now sid user at early rows new) refl,
    )
