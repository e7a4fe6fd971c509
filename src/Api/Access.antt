-- ===== src/Api/Access.antt =====
-- internal/api/authz.go: who may call a handler. uuid.Parse is the argument `parse`. Of the request
-- there are the places a token can stand in, with their prefixes cut off.
use job_scheduling.Base.{
  ℕ, Bool, not, ◌&&◌, Option, none, some, List, [], ◌∷◌, String, str_eq, ltb, leb, ◌==◌,
  if◌then◌else◌, find,
}
use job_scheduling.Store.{Db, is_set}
use job_scheduling.Jobs.Admit.{is_queue}
use job_scheduling.Jobs.Claim.{has_id}
use job_scheduling.Scheduler.Cron.{has_schedule, same_id}
use job_scheduling.Api.Problem.{
  ApiReply, done, refused, bad_request, unauthorized, forbidden, not_found, ◌>>=◌, ◌>>◌, require,
}
use job_scheduling.Api.Submit.{expect, is_empty, or_else}

pub data Role : Type 0 where
  viewer member admin owner : Role

abbrev pub rank : Role → ℕ
rank viewer = 0
rank member = 1
rank admin = 2
rank owner = 3

-- parseRole.
unfoldable pub parse_role : String → Role
parse_role s =
    if str_eq s "owner"
    then owner
    else if str_eq s "admin"
    then admin
    else if str_eq s "member"
    then member
    else viewer

pub record Session : Type 0 where
  pub id : ℕ
  pub user : ℕ
  pub revoked_at : Option ℕ
  pub expires_at : ℕ

pub record Project : Type 0 where
  pub id : ℕ
  pub org : ℕ

-- org_members.
pub record Member : Type 0 where
  pub org : ℕ
  pub user : ℕ
  pub role : String

pub record Accounts : Type 0 where
  pub sessions : List Session
  pub projects : List Project
  pub members : List Member

pub record Credentials : Type 0 where
  pub authorization : Option String
  pub cookie : Option String
  pub protocols : List String

pub record Scope : Type 0 where
  pub user : ℕ
  pub session : ℕ
  pub org : ℕ
  pub project : ℕ
  pub entity : ℕ
  pub role : Role

unfoldable pub bearer : Credentials → String
bearer c = elim c.authorization [
  | some t ↦ t
  | none ↦ elim c.cookie [ some t ↦ t | none ↦ elim c.protocols [ [] ↦ "" | t ∷ _ ↦ t ] ]
]

-- sessionSQL.
unfoldable pub is_live_session : ℕ → ℕ → Session → Bool
is_live_session now id s = s.id == id && not (is_set s.revoked_at) && ltb now s.expires_at

-- authuser: the session that the token names.
unfoldable pub authuser : (String → Option ℕ) → ℕ → Accounts → Credentials → ApiReply Session
unfolding bearer is_live_session
authuser parse now acc c = do
  let token = bearer c
  require (not (is_empty token)) unauthorized
  id ← expect (parse token) unauthorized
  expect (find (is_live_session now id) acc.sessions) unauthorized

unfoldable pub is_member : ℕ → ℕ → Member → Bool
is_member org user m = m.org == org && m.user == user

unfoldable pub scope_of : ℕ → ℕ → Option Member → Project → Option Scope
unfolding parse_role
scope_of uid entity none p = none
scope_of uid entity (some m) p = some (record {
  user = 0;
  session = 0;
  org = p.org;
  project = p.id;
  entity = entity;
  role = parse_role m.role;
})

abbrev pub is_project : ℕ → Project → Bool
is_project id p = p.id == id

unfoldable pub scope_found : Accounts → ℕ → ℕ → Option Project → Option Scope
unfolding scope_of is_member
scope_found acc uid entity none = none
scope_found acc uid entity (some p) = scope_of uid entity (find (is_member p.org uid) acc.members) p

-- scopeBy, with the project that the query joins the entity to; none where it finds no row.
unfoldable pub scope_by : Accounts → ℕ → ℕ → Option ℕ → Option Scope
unfolding scope_found
scope_by acc uid entity none = none
scope_by acc uid entity (some project) =
    scope_found acc uid entity (find (is_project project) acc.projects)

abbrev pub queue_project : ℕ → Db → Option ℕ
queue_project id db = elim (find (is_queue id) db.queues) [ none ↦ none | some q ↦ some q.project ]

-- The entities that a handler can be about, with the queries that lead to their projects. The query
-- of a batch takes one of its jobs, by a `limit` that stands without an order.
pub data Entity : Type 0 where
  a_project a_queue a_policy a_job a_schedule a_batch : Entity

unfoldable pub project_of : Entity → ℕ → Db → Option ℕ
project_of a_project id db = some id
project_of a_queue id db = queue_project id db
project_of a_policy id db = elim (find (λ p. p.id == id) db.policies) [
  | none ↦ none
  | some p ↦ some p.project
]
project_of a_job id db = elim (find (has_id id) db.jobs) [ none ↦ none | some j ↦ some j.project ]
project_of a_schedule id db = elim (find (has_schedule id) db.schedules) [
  | none ↦ none
  | some d ↦ queue_project d.queue db
]
project_of a_batch id db = elim (find (λ j. same_id j.batch id) db.jobs) [
  | none ↦ none
  | some j ↦ some j.project
]

-- The locators: byPath, with the scope that it is made for and what it says of an id that is none;
-- byProjectOrQueue and byProjectQuery, with the parameters `queue` and `project` of the query.
pub data Locator : Type 0 where
  by_path : String → Entity → String → Locator
  by_project_or_queue : String → String → Locator
  by_project_query : String → Locator

abbrev located : (String → Option ℕ) → String → Entity → String → ApiReply (Entity × ℕ)
located parse detail kind text = expect (parse text) (bad_request detail) >>= λ id. done (kind, id)

-- The entity that a request is about.
unfoldable pub locate : (String → Option ℕ) → Locator → ApiReply (Entity × ℕ)
locate parse (by_path detail kind text) = located parse detail kind text
locate parse (by_project_or_queue queue project) =
    if not (is_empty queue)
    then located parse "invalid queue" a_queue queue
    else if not (is_empty project)
    then located parse "invalid project" a_project project
    else refused (bad_request "project or queue query parameter required")
locate parse (by_project_query project) =
    if is_empty project
    then refused (bad_request "project query parameter required")
    else located parse "invalid project" a_project project

-- audit_log.
pub record Audit : Type 0 where
  pub project : ℕ
  pub actor : ℕ
  pub action : String
  pub entity : String
  pub entity_id : Option ℕ

-- guard, over a handler whose scope is an entity of a project: what the handler answers, with the
-- audit row. The handler may name another entity for it; one whose action is empty is not audited.
unfoldable pub guard :
    {A : Type 0}
    → (String → Option ℕ)
    → ℕ
    → Accounts
    → Db
    → Credentials
    → Role
    → String
    → Locator
    → String
    → (Scope → ApiReply (A × Option ℕ))
    → ApiReply (A × List Audit)
unfolding authuser locate scope_by project_of
guard parse now acc db c min action loc name handler = do
  s ← authuser parse now acc c
  at ← locate parse loc
  found ← expect (scope_by acc s.user at.1 (project_of at.0 at.1 db)) (not_found name)
  require (leb (rank min) (rank found.role)) forbidden
  let sc = record found { user = s.user; session = s.id }
  res ← handler sc
  done (
    res.0,
    if is_empty action
        then []
        else record {
          project = sc.project;
          actor = s.user;
          action = action;
          entity = name;
          entity_id = some (or_else res.1 sc.entity);
        }
          ∷ [],
  )
