-- ===== src/Api/Guarded.antt =====
-- Who reaches a handler (guard of internal/api/authz.go).
use job_scheduling.Base.{
  ℕ, ◌≤◌, ◌<◌, ◌≡◌, refl, sym, ap, ◌∙◌, true, Option, none, some, List, [], ◌∷◌, String, arith, leb,
  if◌then◌else◌, find, find_passes,
}
use job_scheduling.Store.{Db}
use job_scheduling.Api.Problem.{ApiReply, done}
use job_scheduling.Api.Submit.{is_empty, or_else}
use job_scheduling.Api.Binds.{done-eq, bind-done, expect-done, require-done}
use job_scheduling.Api.Access.{
  Role, rank, parse_role, Session, Project, Member, Accounts, Credentials, Scope, bearer,
  is_live_session, authuser, is_member, scope_of, is_project, scope_found, scope_by, Entity,
  project_of, Audit, Locator, locate, guard,
}

-- The session is one of the accounts', named by the request's token, not revoked and not expired.
abbrev pub IsSignedIn : (String → Option ℕ) → ℕ → Accounts → Credentials → Session → Type 0
IsSignedIn parse now acc c s =
    (id : ℕ) × (parse (bearer c) ≡ some id)
    × (find (is_live_session now id) acc.sessions ≡ some s)
    × (s.id ≡ id)
    × (s.revoked_at ≡ none)
    × (now < s.expires_at)

live_facts :
    (now id : ℕ) (s : Session)
    → is_live_session now id s ≡ true
    → (s.id ≡ id) × (s.revoked_at ≡ none) × (now < s.expires_at)
unfolding is_live_session
live_facts now id s h = (ground arith, ground arith, ground arith)

authuser-IsSignedIn :
    (parse : String → Option ℕ) (now : ℕ) (acc : Accounts) (c : Credentials) (s : Session)
    → authuser parse now acc c ≡ done s
    → IsSignedIn parse now acc c s
unfolding authuser
authuser-IsSignedIn parse now acc c s h =
    let (t, given, h1) = bind-done _ _ s h in
    let (id, parsed, h2) = bind-done _ _ s h1 in
    let live = expect-done _ _ s h2 in
    let passes = find_passes (is_live_session now id) acc.sessions s live in
    let (same, unrevoked, unexpired) = live_facts now id s passes in
    (id, expect-done _ _ id parsed, live, same, unrevoked, unexpired)

-- The scope is a project's, by a row that makes the user a member of its organisation.
abbrev pub IsScope : Accounts → ℕ → ℕ → ℕ → Scope → Type 0
IsScope acc uid entity project sc =
    (p : Project) × (m : Member) × (find (is_project project) acc.projects ≡ some p)
    × (find (is_member p.org uid) acc.members ≡ some m)
    × (m.org ≡ p.org)
    × (m.user ≡ uid)
    × (sc.project ≡ project)
    × (sc.org ≡ p.org)
    × (sc.entity ≡ entity)
    × (sc.role ≡ parse_role m.role)

some-eq : {A : Type 0} (a b : A) → some a ≡ some b → a ≡ b
some-eq a b h = cc

member_facts :
    (org uid : ℕ) (m : Member) → is_member org uid m ≡ true → (m.org ≡ org) × (m.user ≡ uid)
unfolding is_member
member_facts org uid m h = (ground arith, ground arith)

scope_of-IsScope :
    (acc : Accounts) (uid entity project : ℕ) (o : Option Member) (p : Project) (sc : Scope)
    → find (is_project project) acc.projects ≡ some p
    → find (is_member p.org uid) acc.members ≡ o
    → scope_of uid entity o p ≡ some sc
    → IsScope acc uid entity project sc
unfolding scope_of
scope_of-IsScope acc uid entity project none p sc hp hm h = ground arith
scope_of-IsScope acc uid entity project (some m) p sc hp hm h =
    let e = some-eq _ sc h in
    let (of_org, of_user) =
      member_facts p.org uid m (find_passes (is_member p.org uid) acc.members m hm) in
    let passes = find_passes (is_project project) acc.projects p hp in
    let same : p.id ≡ project = ground arith in
    (
      p,
      m,
      hp,
      hm,
      of_org,
      of_user,
      sym (ap (λ (x : Scope). x.project) e) ∙ same,
      sym (ap (λ (x : Scope). x.org) e),
      sym (ap (λ (x : Scope). x.entity) e),
      sym (ap (λ (x : Scope). x.role) e),
    )

scope_found-IsScope :
    (acc : Accounts) (uid entity project : ℕ) (o : Option Project) (sc : Scope)
    → find (is_project project) acc.projects ≡ o
    → scope_found acc uid entity o ≡ some sc
    → IsScope acc uid entity project sc
unfolding scope_found
scope_found-IsScope acc uid entity project none sc hp h = ground arith
scope_found-IsScope acc uid entity project (some p) sc hp h =
    scope_of-IsScope acc uid entity project (find (is_member p.org uid) acc.members) p sc hp refl h

scope_by-IsScope :
    (acc : Accounts) (uid entity : ℕ) (o : Option ℕ) (sc : Scope)
    → scope_by acc uid entity o ≡ some sc
    → (project : ℕ) × (o ≡ some project) × IsScope acc uid entity project sc
unfolding scope_by
scope_by-IsScope acc uid entity none sc h = ground arith
scope_by-IsScope acc uid entity (some project) sc h = (
  project,
  refl,
  scope_found-IsScope acc uid entity project (find (is_project project) acc.projects) sc refl h,
)

-- The request is allowed: its user is signed in, and holds the rank in the organisation whose
-- project the entity is of. The scope is what the handler is given.
abbrev pub IsAllowed :
    (String → Option ℕ) → ℕ → Accounts → Db → Credentials → Role → Entity → ℕ → Scope → Type 0
IsAllowed parse now acc db c min kind id sc =
    (s : Session) × (found : Scope) × (project : ℕ) × IsSignedIn parse now acc c s
    × (project_of kind id db ≡ some project)
    × IsScope acc s.user id project found
    × (rank min ≤ rank found.role)
    × (sc ≡ record found { user = s.user; session = s.id })

leb_facts : (a b : ℕ) → leb a b ≡ true → a ≤ b
leb_facts a b h = ground arith

abbrev pub audit_of : ℕ → ℕ → String → String → ℕ → Option ℕ → Audit
audit_of project actor action name entity named = record {
  project = project;
  actor = actor;
  action = action;
  entity = name;
  entity_id = some (or_else named entity);
}

-- Where guard answers with a result, the request was allowed: its token names a session of the accounts
-- that is neither revoked nor expired, its path or query names an entity, which is of a project, and the session's user is a
-- member of that project's organisation with a role of at least the wanted rank. The result is what the handler
-- gives in that scope, and there is one audit row, which names the scope's project and user, unless the
-- action is empty, where there is none.
pub guard_lem :
    {A : Type 0} (parse : String → Option ℕ) (now : ℕ) (acc : Accounts) (db : Db) (c : Credentials)
    (min : Role) (action : String) (loc : Locator) (name : String)
    (handler : Scope → ApiReply (A × Option ℕ)) (a : A) (audits : List Audit)
    → guard parse now acc db c min action loc name handler ≡ done (a, audits)
    → (sc : Scope) × (named : Option ℕ) × (kind : Entity) × (id : ℕ) × (locate parse loc
        ≡ done (kind, id))
      × IsAllowed parse now acc db c min kind id sc
      × (handler sc ≡ done (a, named))
      × (audits ≡ (
          if is_empty action
          then []
          else audit_of sc.project sc.user action name sc.entity named ∷ []))
unfolding guard
guard_lem {A} parse now acc db c min action loc name handler a audits h =
    let (s, signed, h1) = bind-done _ _ _ h in
    let (at, asked, h1') = bind-done _ _ _ h1 in
    let (found, scoped, h2) = bind-done _ _ _ h1' in
    let (u, ranked, h3) = bind-done _ _ _ h2 in
    let (res, handled, h4) = bind-done _ _ _ h3 in
    let (project, of_project, in_scope) =
      scope_by-IsScope acc s.user at.1 _ found (expect-done _ _ found scoped) in
    let e = done-eq _ _ h4 in
    let allowed = leb_facts _ _ (require-done _ _ u ranked) in
    let first = ap (λ (x : A × List Audit). x.0) e in
    (
      record found { user = s.user; session = s.id },
      res.1,
      at.0,
      at.1,
      asked,
      (
        s,
        found,
        project,
        authuser-IsSignedIn parse now acc c s signed,
        of_project,
        in_scope,
        allowed,
        refl,
      ),
      handled ∙ ap (λ (x : A). done (x, res.1)) first,
      sym (ap (λ (x : A × List Audit). x.1) e),
    )
