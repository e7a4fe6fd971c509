-- ===== src/Api/Pages.antt =====
-- The listing of jobs, a page at a time: listJobs of internal/api/jobs.go, the query builder of
-- query.go, and the limits and cursors of pagination.go.
pub mod Cursors
pub mod Built
pub mod Walk
use job_scheduling.Base.{
  ℕ, ◌-◌, zero, suc, Bool, true, false, ◌&&◌, ◌||◌, Option, none, some, List, [], ◌∷◌, ◌++◌, String,
  str_eq, ltb, ◌==◌, if◌then◌else◌, select, sort_by, take, length, last_or,
}
use job_scheduling.Store.{
  Job, Db, Status, scheduled, queued, claimed, running, completed, retry_wait, dead_letter,
  cancelled, same_status,
}
use job_scheduling.Api.Problem.{ApiReply, done, refused, bad_request, ◌>>=◌}
use job_scheduling.Api.Submit.{expect, is_empty}

-- `negsuc n` is -(n + 1).
pub data ℤ : Type 0 where
  pos : ℕ → ℤ
  negsuc : ℕ → ℤ

-- What the handlers take from other libraries: base64.RawURLEncoding, the layout time.RFC3339Nano,
-- the text of a uuid, and strconv.Atoi. A text that is put together here is a list of bytes.
pub record Codec : Type 0 where
  pub encode64 : List ℕ → List ℕ
  pub decode64 : List ℕ → Option (List ℕ)
  pub format_time : ℕ → List ℕ
  pub parse_time : List ℕ → Option ℕ
  pub format_id : ℕ → List ℕ
  pub parse_id : List ℕ → Option ℕ
  pub uuid_of : String → Option ℕ
  pub atoi : String → Option ℤ

abbrev pub default_limit : ℕ
default_limit = 50

abbrev pub max_limit : ℕ
max_limit = 100

unfoldable pub clamp_limit : Option ℤ → ℕ
clamp_limit none = default_limit
clamp_limit (some (negsuc n)) = default_limit
clamp_limit (some (pos n)) =
    if n == 0 then default_limit else if ltb max_limit n then max_limit else n

-- pageLimit.
unfoldable pub page_limit : Codec → String → ℕ
unfolding clamp_limit
page_limit c v = if is_empty v then default_limit else clamp_limit (c.atoi v)

abbrev pub bar : ℕ
bar = b'|'

-- encodeCursor.
unfoldable pub encode_cursor : Codec → ℕ → ℕ → List ℕ
encode_cursor c t id = c.encode64 (c.format_time t ++ bar ∷ c.format_id id)

-- strings.SplitN(s, "|", 2), where it gives two parts.
unfoldable pub split_at : ℕ → List ℕ → Option (List ℕ × List ℕ)
split_at sep [] = none
split_at sep (b ∷ bs) = elim (b == sep) [
  | true ↦ some ([], bs)
  | false ↦ elim (split_at sep bs) [ none ↦ none | some (front, back) ↦ some (b ∷ front, back) ]
]

abbrev pub bad_cursor : {A : Type 0} → Option A → ApiReply A
bad_cursor o = expect o (bad_request "invalid cursor")

-- decodeCursor. No cursor is the empty text.
unfoldable pub decode_cursor : Codec → List ℕ → ApiReply (Option (ℕ × ℕ))
unfolding split_at
decode_cursor c [] = done none
decode_cursor c (b ∷ bs) = do
  raw ← bad_cursor (c.decode64 (b ∷ bs))
  parts ← bad_cursor (split_at bar raw)
  t ← bad_cursor (c.parse_time parts.0)
  id ← bad_cursor (c.parse_id parts.1)
  done (some (t, id))

-- The columns that conditions are about, and the arguments of a statement.
pub data Column : Type 0 where
  project_column status_column type_column queue_column : Column

pub data Arg : Type 0 where
  an_id a_time a_limit : ℕ → Arg
  a_text : String → Arg
  a_status : Status → Arg

-- "%s = $%d", and "(created_at, id) < ($%d, $%d)".
pub data Condition : Type 0 where
  equals : Column → ℕ → Condition
  comes_before : ℕ → ℕ → Condition

-- query of query.go.
pub record Query : Type 0 where
  pub conditions : List Condition
  pub args : List Arg

abbrev pub no_query : Query
no_query = record { conditions = []; args = [] }

-- eq.
unfoldable pub with_equal : Column → Arg → Query → Query
with_equal col v q =
    let args = q.args ++ v ∷ [] in
    record { conditions = q.conditions ++ equals col (length args) ∷ []; args = args }

-- before.
unfoldable pub with_before : Option (ℕ × ℕ) → Query → Query
with_before none q = q
with_before (some (t, id)) q =
    let args = q.args ++ a_time t ∷ an_id id ∷ [] in
    record {
      conditions = q.conditions ++ comes_before (length args - 1) (length args) ∷ [];
      args = args;
    }

-- A statement over the listing's columns and order, with the place of its limit.
pub record Statement : Type 0 where
  pub conditions : List Condition
  pub limit : ℕ
  pub args : List Arg

-- build.
unfoldable pub build : ℕ → Query → Statement
build limit q =
    let args = q.args ++ a_limit limit ∷ [] in
    record { conditions = q.conditions; limit = length args; args = args }

-- What Postgres makes of a statement. `$n` is the n-th argument.
abbrev pub arg_at : List Arg → ℕ → Option Arg
arg_at [] n = none
arg_at (a ∷ as') zero = none
arg_at (a ∷ as') (suc zero) = some a
arg_at (a ∷ as') (suc (suc n)) = arg_at as' (suc n)

abbrev pub same_arg : Arg → Option Arg → Bool
same_arg (an_id a) (some (an_id b)) = a == b
same_arg (a_text a) (some (a_text b)) = str_eq a b
same_arg (a_status a) (some (a_status b)) = same_status a b
same_arg _ _ = false

abbrev pub column_of : Column → Job → Arg
column_of project_column j = an_id j.project
column_of status_column j = a_status j.status
column_of type_column j = a_text j.kind
column_of queue_column j = an_id j.queue

-- (created_at, id) < (t, i).
unfoldable pub is_before : ℕ → ℕ → Job → Bool
is_before t i j = ltb j.created_at t || j.created_at == t && ltb j.id i

abbrev pub is_before_args : Option Arg → Option Arg → Job → Bool
is_before_args (some (a_time t)) (some (an_id i)) j = is_before t i j
is_before_args _ _ j = false

abbrev pub holds : List Arg → Condition → Job → Bool
holds args (equals col n) j = same_arg (column_of col j) (arg_at args n)
holds args (comes_before n m) j = is_before_args (arg_at args n) (arg_at args m) j

abbrev pub all_hold : List Arg → List Condition → Job → Bool
all_hold args [] j = true
all_hold args (c ∷ cs) j = holds args c j && all_hold args cs j

-- order by created_at desc, id desc.
unfoldable pub newer : Job → Job → Bool
unfolding is_before
newer a b = is_before a.created_at a.id b

abbrev pub limit_of : Option Arg → ℕ
limit_of (some (a_limit n)) = n
limit_of _ = 0

unfoldable pub execute : Statement → List Job → List Job
execute s jobs =
    take (limit_of (arg_at s.args s.limit))
      (sort_by newer (select (all_hold s.args s.conditions) jobs))

-- jobStatuses, and the enum that a name in it stands for.
unfoldable pub status_named : String → Option Status
status_named s =
    if str_eq s "scheduled"
    then some scheduled
    else if str_eq s "queued"
    then some queued
    else if str_eq s "claimed"
    then some claimed
    else if str_eq s "running"
    then some running
    else if str_eq s "completed"
    then some completed
    else if str_eq s "retry_wait"
    then some retry_wait
    else if str_eq s "dead_letter"
    then some dead_letter
    else if str_eq s "cancelled"
    then some cancelled
    else none

-- The query parameters of the request.
pub record ListReq : Type 0 where
  pub status : String
  pub kind : String
  pub queue : String
  pub limit : String

pub record Filter : Type 0 where
  pub status : Option Status
  pub kind : Option String
  pub queue : Option ℕ

abbrev optional : {A : Type 0} → Option A → String → ApiReply (Option A)
optional o detail = expect o (bad_request detail) >>= λ a. done (some a)

-- listJobs, up to the cursor.
unfoldable pub filter_of : Codec → ListReq → ApiReply Filter
unfolding status_named
filter_of c req = do
  status ←
      if is_empty req.status then done none else optional (status_named req.status) "invalid status"
  queue ← if is_empty req.queue then done none else optional (c.uuid_of req.queue) "invalid queue"
  done (record {
    status = status;
    kind = if is_empty req.kind then none else some req.kind;
    queue = queue;
  })

abbrev pub maybe_equal : {A : Type 0} → Column → (A → Arg) → Option A → Query → Query
maybe_equal col arg none q = q
maybe_equal col arg (some a) q = with_equal col (arg a) q

-- The statement of listJobs.
unfoldable pub listing : ℕ → Filter → Option (ℕ × ℕ) → ℕ → Statement
unfolding with_equal with_before build
listing project f cursor limit =
    let q0 = with_equal project_column (an_id project) no_query in
    let q1 = maybe_equal status_column a_status f.status q0 in
    let q2 = maybe_equal type_column a_text f.kind q1 in
    let q3 = maybe_equal queue_column an_id f.queue q2 in build limit (with_before cursor q3)

-- The next cursor: of the last row, if the page is full; else none.
unfoldable pub next_cursor : Codec → ℕ → List Job → List ℕ
unfolding encode_cursor
next_cursor c limit [] = []
next_cursor c limit (j ∷ rows) =
    let last = last_or j rows in
    if length (j ∷ rows) == limit then encode_cursor c last.created_at last.id else []

-- listJobs: the rows of a page and the cursor for the next.
unfoldable pub list_jobs : Codec → ℕ → ListReq → List ℕ → Db → ApiReply (List Job × List ℕ)
unfolding filter_of decode_cursor page_limit listing execute next_cursor
list_jobs c project req cursor db = do
  f ← filter_of c req
  start ← decode_cursor c cursor
  let limit = page_limit c req.limit
  let rows = execute (listing project f start limit) db.jobs
  done (rows, next_cursor c limit rows)
