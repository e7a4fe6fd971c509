-- ===== src/Api/Events.antt =====
-- The log of events as clients read it: listEvents and afterID of internal/api/events.go, and pump of
-- stream.go. An event's id is the number that its row got; a project's ids ascend in the order of
-- commits, since fl.emit holds the project's lock until then (migrations/014_lock_order.sql).
pub mod Delivery
pub mod Catchup
use job_scheduling.Base.{
  ℕ, ◌+◌, Bool, true, false, ◌&&◌, Option, none, some, List, [], ◌∷◌, ◌++◌, String, ltb, leb, ◌==◌,
  if◌then◌else◌, select, sort_by, take, length, last_or,
}
use job_scheduling.Store.{Event, DbError}
use job_scheduling.Api.Problem.{ApiReply, done, refused, bad_request, too_old, ◌>>=◌, ◌>>◌, require}
use job_scheduling.Api.Submit.{is_empty}
use job_scheduling.Api.Pages.{ℤ, pos, negsuc, Codec, page_limit}

-- A row of events.
pub record Logged : Type 0 where
  pub id : ℕ
  pub created_at : ℕ
  pub event : Event

abbrev pub non_negative : Option ℤ → ApiReply ℕ
non_negative none = refused (bad_request "invalid after")
non_negative (some (negsuc n)) = refused (bad_request "invalid after")
non_negative (some (pos n)) = done n

-- afterID.
unfoldable pub after_id : Codec → String → ApiReply ℕ
after_id c v = if is_empty v then done 0 else non_negative (c.atoi v)

abbrev pub by_id : Logged → Logged → Bool
by_id a b = ltb a.id b.id

-- listEventsSQL.
unfoldable pub event_rows : ℕ → ℕ → ℕ → List Logged → List Logged
event_rows project after limit rows =
    take limit (sort_by by_id (select (λ r. r.event.project == project && ltb after r.id) rows))

-- `next := out[len(out)-1].ID`, or the cursor as it was.
abbrev pub next_of : ℕ → List Logged → ℕ
next_of after [] = after
next_of after (r ∷ rows) = (last_or r rows).id

-- listEvents: a page of events and the cursor behind it.
unfoldable pub list_events :
    Codec → ℕ → String → String → ℕ → List Logged → ApiReply (List Logged × ℕ)
unfolding after_id event_rows
list_events c project after_text limit_text low rows = do
  after ← after_id c after_text
  require (leb low (after + 1)) (too_old low)
  let page = event_rows project after (page_limit c limit_text) rows
  done (page, next_of after page)

abbrev pub stream_batch : ℕ
stream_batch = 1000

pub data Frame : Type 0 where
  cursor_too_old : ℕ → ℕ → Frame  -- prev_id, oldest_available
  batch : ℕ → ℕ → Bool → List Logged → Frame  -- prev_id, next, more, events

-- A turn of pump's loop: what its query finds, and whether the frame can be written.
pub data Turn : Type 0 where
  query_fails : DbError → Turn
  query_finds : List Logged → Bool → Turn

-- The body of the loop, for the rows of the page; `more` is the rest of the loop.
unfoldable pub pump_page : (ℕ → List Frame) → ℕ → List Logged → Bool → List Frame
pump_page more after [] sends = more after
pump_page more after (r ∷ rows) sends =
    let next = (last_or r rows).id in
    let frame = batch after next (length (r ∷ rows) == stream_batch) (r ∷ rows) in
    if sends then frame ∷ more next else []

-- The loop of pump, as the frames that it writes. The turns stand for the rounds up to the end of the
-- connection; a round that found a full page is followed at once by the next, and any other when the
-- server is notified or two seconds are over.
unfoldable pub pump_loop : ℕ → List Turn → ℕ → List Frame
unfolding pump_page event_rows
pump_loop project [] after = []
pump_loop project (query_fails e ∷ turns) after = []
pump_loop project (query_finds rows sends ∷ turns) after =
    pump_page (pump_loop project turns) after (event_rows project after stream_batch rows) sends

-- pump.
unfoldable pub pump : ℕ → ℕ → ℕ → List Turn → List Frame
unfolding pump_loop
pump project low after turns =
    if ltb (after + 1) low then cursor_too_old after low ∷ [] else pump_loop project turns after
