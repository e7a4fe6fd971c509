-- ===== src/Api/Events/Delivery.antt =====
-- What a stream delivers of the log (pump of internal/api/stream.go).
use job_scheduling.Base.{
  ℕ, ◌+◌, ◌≤◌, ◌<◌, ◌≡◌, refl, sym, ◌∙◌, ap, subst, Bool, true, false, ◌&&◌, List, [], ◌∷◌, ◌++◌,
  arith, ltb, leb, ◌==◌, Bool-cases, inl, inr, select, sort_by, take, drop, length, last_or, All,
  Ascending, Ascending-select, take-append-drop, length-take-le, append_assoc, insert_front,
  select-All, select-passes,
}
use job_scheduling.Api.Events.{
  Logged, by_id, event_rows, Frame, cursor_too_old, batch, Turn, query_fails, query_finds,
  pump_page, pump_loop, pump, stream_batch,
}

abbrev pub of_project : ℕ → List Logged → List Logged
of_project project = select (λ r. r.event.project == project)

-- The project's events behind a cursor, in the order of the log.
abbrev pub pending : ℕ → ℕ → List Logged → List Logged
pending project after rows = select (λ r. ltb after r.id) (of_project project rows)

-- The table as a query finds it: a first part of the log, less what retention has dropped.
abbrev pub Sees : ℕ → List Logged → List Logged → Type 0
Sees low log rows =
    (seen : List Logged) × (later : List Logged) × (log ≡ seen ++ later)
    × (rows ≡ select (λ r. leb low r.id) seen)

abbrev pub TurnSees : ℕ → List Logged → Turn → Type 0
TurnSees low log (query_fails e) = Unit
TurnSees low log (query_finds rows sends) = Sees low log rows

by_id_trans : (a b c : Logged) → by_id a b ≡ true → by_id b c ≡ true → by_id a c ≡ true
by_id_trans a b c h k = ground arith

by_id-asym : (a b : Logged) → by_id a b ≡ true → by_id b a ≡ false
by_id-asym a b h = ground arith

select-append :
    {A : Type 0} (p : A → Bool) (xs ys : List A) → select p (xs ++ ys) ≡ select p xs ++ select p ys
unfolding select
select-append p [] ys = refl
select-append p (x ∷ xs) ys = elim (Bool-cases (p x)) [
  | inl e ↦ rw (e, select-append p xs ys) refl
  | inr e ↦ rw (e, select-append p xs ys) refl
]

pub sort_by-id : (rows : List Logged) → Ascending by_id rows → sort_by by_id rows ≡ rows
unfolding sort_by
sort_by-id [] a = refl
sort_by-id (r ∷ rows) (h, a) =
    rw (sort_by-id rows a) (insert_front by_id by_id_trans by_id-asym r rows h)

All-append_left : {A : Type 0} (P : A → Type 0) (xs ys : List A) → All P (xs ++ ys) → All P xs
All-append_left P [] ys a = tt
All-append_left P (x ∷ xs) ys (h, a) = (h, All-append_left P xs ys a)

Ascending-append_left : (xs ys : List Logged) → Ascending by_id (xs ++ ys) → Ascending by_id xs
Ascending-append_left [] ys a = tt
Ascending-append_left (x ∷ xs) ys (h, a) =
    (All-append_left _ xs ys h, Ascending-append_left xs ys a)

-- What is dropped is behind the cursor already.
pub select-pending :
    (project low after : ℕ) (rows : List Logged)
    → low ≤ after + 1
    → select (λ r. r.event.project == project && ltb after r.id) (select (λ r. leb low r.id) rows)
      ≡ pending project after rows
unfolding select
select-pending project low after [] h = refl
select-pending project low after (r ∷ rows) h =
    ground (arith, select-pending project low after rows h)

-- A page is the beginning of what is pending.
event_rows-pending :
    (project low after n : ℕ) (log rows : List Logged)
    → low ≤ after + 1
    → Ascending by_id (of_project project log)
    → Sees low log rows
    → (rest : List Logged) × (pending project after log ≡ event_rows project after n rows ++ rest)
unfolding event_rows
event_rows-pending project low after n log rows h a (seen, later, parts, found) =
    let halves =
      ap (of_project project) parts ∙ select-append (λ r. r.event.project == project) seen later in
    let first =
      Ascending-append_left (of_project project seen) (of_project project later)
        (subst (Ascending by_id) halves a) in
    let open_part = pending project after seen in
    let sorted =
      sort_by-id open_part
        (Ascending-select by_id (λ r. ltb after r.id) (of_project project seen) first) in
    let chosen =
      ap (λ x. sort_by by_id (select (λ r. r.event.project == project && ltb after r.id) x)) found
      ∙ ap (sort_by by_id) (select-pending project low after seen h)
      ∙ sorted in
    let whole =
      ap (select (λ r. ltb after r.id)) halves
      ∙ select-append (λ r. ltb after r.id) (of_project project seen) (of_project project later) in
    (
      drop n open_part ++ pending project after later,
      whole
          ∙ ap (λ x. x ++ pending project after later) (sym (take-append-drop n open_part))
          ∙ append_assoc (take n open_part) (drop n open_part) (pending project after later)
          ∙ ap (λ x. take n x ++ (drop n open_part ++ pending project after later)) (sym chosen),
    )

All-last_or_append :
    {A : Type 0} (P : A → Type 0) (d : A) (xs ys : List A)
    → P d
    → All P (xs ++ ys)
    → P (last_or d xs)
All-last_or_append P d [] ys h a = h
All-last_or_append P d (x ∷ xs) ys h (p, a) = All-last_or_append P x xs ys p a

event_rows-length :
    (project after n : ℕ) (rows : List Logged) → length (event_rows project after n rows) ≤ n
unfolding event_rows
event_rows-length project after n rows = length-take-le n _

-- Behind the last row of a first part is the second.
select-last_or :
    (d : Logged) (xs ys : List Logged)
    → Ascending by_id (d ∷ xs ++ ys)
    → select (by_id (last_or d xs)) (d ∷ xs ++ ys) ≡ ys
unfolding select
select-last_or d [] ys (h, a) =
    let irrefl : by_id d d ≡ false = ground arith in
    rw (select, irrefl) (select-All by_id by_id_trans by_id-asym (by_id d) ys h)
select-last_or d (x ∷ xs) ys (h, a) =
    let later = All-last_or_append (λ r. by_id d r ≡ true) x xs ys h.0 h.1 in
    rw (select, by_id-asym d (last_or x xs) later) (select-last_or x xs ys a)

select-later :
    (a b : ℕ) (rows : List Logged)
    → a < b
    → select (λ r. ltb b r.id) (select (λ r. ltb a r.id) rows) ≡ select (λ r. ltb b r.id) rows
unfolding select
select-later a b [] h = refl
select-later a b (r ∷ rows) h = ground (arith, select-later a b rows h)

-- What is pending behind a page that was written, and that the page moves the cursor on.
pub page_written :
    (project after : ℕ) (log : List Logged) (r : Logged) (rows rest : List Logged)
    → Ascending by_id (of_project project log)
    → pending project after log ≡ r ∷ rows ++ rest
    → (after < (last_or r rows).id) × (pending project (last_or r rows).id log ≡ rest)
page_written project after log r rows rest a h =
    let behind =
      subst (All (λ x. ltb after x.id ≡ true)) h
        (select-passes (λ x. ltb after x.id) (of_project project log)) in
    let on = All-last_or_append (λ x. ltb after x.id ≡ true) r rows rest behind.0 behind.1 in
    let on' : after < (last_or r rows).id = ground arith in
    let sorted =
      subst (Ascending by_id) h
        (Ascending-select by_id (λ x. ltb after x.id) (of_project project log) a) in
    (
      on',
      sym (select-later after (last_or r rows).id (of_project project log) on')
          ∙ ap (select (λ x. ltb (last_or r rows).id x.id)) h
          ∙ select-last_or r rows rest sorted,
    )

-- The events of the frames, in the order they are written in.
unfoldable pub events_of : List Frame → List Logged
events_of [] = []
events_of (cursor_too_old p oldest ∷ fs) = events_of fs
events_of (batch p next more rows ∷ fs) = rows ++ events_of fs

-- The cursor that a client has after these frames.
unfoldable pub cursor_after : ℕ → List Frame → ℕ
cursor_after after [] = after
cursor_after after (cursor_too_old p oldest ∷ fs) = cursor_after after fs
cursor_after after (batch p next more rows ∷ fs) = cursor_after next fs

-- Each frame begins where the one before it ended, is not empty, and holds a batch at most.
abbrev pub Chained : ℕ → List Frame → Type 0
Chained after [] = Unit
Chained after (cursor_too_old p oldest ∷ fs) = ⊥
Chained after (batch p next more rows ∷ fs) =
    (p ≡ after)
    × (after < next)
    × (length rows ≤ stream_batch)
    × (more ≡ (length rows == stream_batch))
    × Chained next fs

abbrev Delivers : ℕ → ℕ → List Logged → List Frame → Type 0
Delivers project after log fs =
    (events_of fs ++ pending project (cursor_after after fs) log ≡ pending project after log)
    × Chained after fs

Delivers-page :
    (project after : ℕ) (log : List Logged) (more : ℕ → List Frame) (rows rest : List Logged)
    (sends : Bool)
    → Ascending by_id (of_project project log)
    → pending project after log ≡ rows ++ rest
    → length rows ≤ stream_batch
    → ((next : ℕ) → after ≤ next → Delivers project next log (more next))
    → Delivers project after log (pump_page more after rows sends)
unfolding pump_page events_of cursor_after
Delivers-page project after log more [] rest sends a h n ih = ih after (omega arith)
Delivers-page project after log more (r ∷ rows) rest false a h n ih = (refl, tt)
Delivers-page project after log more (r ∷ rows) rest true a h n ih =
    let (on, remains) = page_written project after log r rows rest a h in
    let (told, chained) = ih (last_or r rows).id (omega arith) in
    (
      append_assoc (r ∷ rows) _ _ ∙ ap (λ x. r ∷ rows ++ x) (told ∙ remains) ∙ sym h,
      (refl, on, n, refl, chained),
    )

pump_loop-Delivers :
    (project low after : ℕ) (log : List Logged) (turns : List Turn)
    → Ascending by_id (of_project project log)
    → low ≤ after + 1
    → All (TurnSees low log) turns
    → Delivers project after log (pump_loop project turns after)
unfolding pump_loop events_of cursor_after
pump_loop-Delivers project low after log [] a h seen = (refl, tt)
pump_loop-Delivers project low after log (query_fails e ∷ turns) a h seen = (refl, tt)
pump_loop-Delivers project low after log (query_finds rows sends ∷ turns) a h (sees, seen) =
    let (rest, parts) = event_rows-pending project low after stream_batch log rows h a sees in
    Delivers-page project after log (pump_loop project turns)
      (event_rows project after stream_batch rows) rest sends a parts
      (event_rows-length project after stream_batch rows)
      (λ next later. pump_loop-Delivers project low next log turns a (omega arith) seen)

-- A stream is the log. Whatever its queries find as the log grows, a client whose cursor retention
-- has overtaken is told so, in one frame and nothing else. Any other client gets the project's
-- events behind its cursor, from the first on, in order, each once and none left out: what the
-- frames hold, together with what is behind the cursor of the last, is all that is behind the
-- first. Each frame begins where the one before it ended, and holds between one event and a batch.
-- Every query finds the log as far as it has grown, less what lies below the mark `low`, and a
-- project's ids ascend.
pub pump_lem :
    (project low after : ℕ) (log : List Logged) (turns : List Turn)
    → Ascending by_id (of_project project log)
    → All (TurnSees low log) turns
    → (after + 1 < low → pump project low after turns ≡ cursor_too_old after low ∷ [])
      × (low ≤ after + 1
          → let frames = pump project low after turns in
            (events_of frames ++ pending project (cursor_after after frames) log
              ≡ pending project after log)
            × Chained after frames)
unfolding pump
pump_lem project low after log turns a seen = (
  λ h. ground arith,
  λ h. elim (Bool-cases (ltb (after + 1) low)) [
    | inl e ↦ absurd (ground arith)
    | inr e ↦ rw e (pump_loop-Delivers project low after log turns a h seen)
  ],
)
