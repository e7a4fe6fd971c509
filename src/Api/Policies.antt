-- ===== src/Api/Policies.antt =====
-- Retry policies: createPolicy, updatePolicy and deletePolicy of internal/api/policies.go, with the
-- checks and keys of the table (migrations/002_core.sql). Times are the milliseconds of the columns.
pub mod Checked
use job_scheduling.Base.{
  ℕ, Bool, true, not, ◌&&◌, ◌||◌, Option, none, some, List, [], ◌∷◌, String, str_eq, ltb, leb, ◌==◌,
  if◌then◌else◌, find, exists, modify, delete_all,
}
use job_scheduling.Store.{Policy, Db, BackoffKind, fixed, linear, exponential}
use job_scheduling.Api.Problem.{
  ApiReply, done, refused, bad_request, conflict, no_rows, ◌>>=◌, ◌>>◌, require,
}
use job_scheduling.Api.Submit.{or_else, expect, is_empty}
use job_scheduling.Api.Pages.{ℤ, pos, negsuc}

-- policyReq, decoded.
pub record PolicyReq : Type 0 where
  pub name : Option String
  pub kind : Option String
  pub max_attempts : Option ℤ
  pub max_lost_attempts : Option ℤ
  pub base_delay_ms : Option ℤ
  pub max_delay_ms : Option ℤ
  pub jitter : Option Bool

-- validKind, and the kind that the name stands for.
unfoldable pub kind_named : String → Option BackoffKind
kind_named s =
    if str_eq s "fixed"
    then some fixed
    else if str_eq s "linear"
    then some linear
    else if str_eq s "exponential"
    then some exponential
    else none

abbrev kind_error : String
kind_error = "kind must be fixed, linear, or exponential"

abbrev out_of_range : String
out_of_range = "policy values out of range"

-- derefInt and `coalesce`: a number of the request, or the one that stands. No column of the
-- table passes its check with a negative number.
unfoldable pub number : String → Option ℤ → ℕ → ApiReply ℕ
number detail none d = done d
number detail (some (pos n)) d = done n
number detail (some (negsuc n)) d = refused (bad_request detail)

-- The check constraints of retry_policies.
unfoldable pub policy_check : Policy → Bool
policy_check p =
    leb 1 p.max_attempts
    && leb p.max_attempts 50
    && (leb 1 p.max_lost_attempts && leb p.max_lost_attempts 50)
    && (ltb 0 p.base_delay_ms && ltb 0 p.max_delay_ms && leb p.base_delay_ms p.max_delay_ms)

-- Another row with the key (project_id, name).
abbrev pub same_policy_name : Policy → Policy → Bool
same_policy_name p r = r.project == p.project && str_eq r.name p.name && not (r.id == p.id)

-- The numbers of the request over a row.
unfoldable pub policy_numbers : PolicyReq → Policy → ApiReply Policy
unfolding number
policy_numbers req p = do
  attempts ← number out_of_range req.max_attempts p.max_attempts
  lost ← number out_of_range req.max_lost_attempts p.max_lost_attempts
  base ← number out_of_range req.base_delay_ms p.base_delay_ms
  most ← number out_of_range req.max_delay_ms p.max_delay_ms
  done (record p {
    max_attempts = attempts;
    max_lost_attempts = lost;
    base_delay_ms = base;
    max_delay_ms = most;
    jitter = or_else req.jitter p.jitter;
  })

-- What the insert and the update ask of the row.
unfoldable pub admit_policy : Policy → List Policy → ApiReply (Unit {0})
unfolding policy_check
admit_policy p policies = do
  require (policy_check p) (bad_request out_of_range)
  require (not (exists (same_policy_name p) policies))
      (conflict "policy name already used in this project")

abbrev standard_policy : ℕ → ℕ → String → BackoffKind → Policy
standard_policy id project name kind = record {
  id = id;
  project = project;
  name = name;
  kind = kind;
  max_attempts = 5;
  max_lost_attempts = 3;
  base_delay_ms = 1000;
  max_delay_ms = 3600000;
  jitter = true;
}

-- createPolicy; `fresh` is the id that the table gives.
unfoldable pub create_policy : (String → String) → ℕ → ℕ → PolicyReq → Db → ApiReply (Policy × Db)
unfolding kind_named policy_numbers admit_policy
create_policy trim fresh project req db = do
  let name = trim (or_else req.name "")
  require (not (is_empty name)) (bad_request "name required")
  kind ← expect (kind_named (or_else req.kind "exponential")) (bad_request kind_error)
  p ← policy_numbers req (standard_policy fresh project name kind)
  admit_policy p db.policies
  done (p, record db { policies = p ∷ db.policies })

unfoldable pub new_kind : Option String → ApiReply (Option BackoffKind)
unfolding kind_named
new_kind none = done none
new_kind (some s) = expect (kind_named s) (bad_request kind_error) >>= λ k. done (some k)

abbrev pub is_policy : ℕ → Policy → Bool
is_policy id p = p.id == id

abbrev replaced : Policy → Policy → Policy
replaced p old = p

-- updatePolicy.
unfoldable pub update_policy : ℕ → PolicyReq → Db → ApiReply (Policy × Db)
unfolding new_kind policy_numbers admit_policy
update_policy id req db = do
  kind ← new_kind req.kind
  old ← expect (find (is_policy id) db.policies) no_rows
  p ←
      policy_numbers req
        (record old { name = or_else req.name old.name; kind = or_else kind old.kind })
  admit_policy p db.policies
  done (p, record db { policies = modify (is_policy id) (replaced p) db.policies })

-- deletePolicy: the foreign keys of queues and jobs hold it.
unfoldable pub delete_policy : ℕ → Db → ApiReply Db
delete_policy id db = do
  require (not (exists (λ q. q.policy == id) db.queues || exists (λ j. j.policy == id) db.jobs))
      (conflict "policy still referenced by a queue or job")
  done (record db { policies = delete_all (is_policy id) db.policies })
