-- ===== src/Api/Events/Catchup.antt =====
-- A stream reaches the end of the log (pump of internal/api/stream.go).
use job_scheduling.Base.{
  ℕ, zero, suc, ◌+◌, ◌*◌, ◌≤◌, ◌<◌, ◌≡◌, refl, sym, ◌∙◌, ap, subst, true, List, [], ◌∷◌, ◌++◌,
  arith, ltb, leb, Bool-cases, inl, inr, select, sort_by, take, drop, length, last_or, Ascending,
  Ascending-select, take-append-drop, length-take-drop, length-take-le, drop-nil,
}
use job_scheduling.Api.Events.{
  Logged, by_id, event_rows, Turn, query_finds, pump_page, pump_loop, pump, stream_batch,
}
use job_scheduling.Api.Events.Delivery.{
  of_project, pending, events_of, select-pending, sort_by-id, page_written,
}

-- The log as far as retention has left it.
abbrev pub kept : ℕ → List Logged → List Logged
kept low = select (λ r. leb low r.id)

-- Rounds of the loop that find this table, and whose frames are written.
abbrev pub rounds : ℕ → List Logged → List Turn
rounds zero rows = []
rounds (suc n) rows = query_finds rows true ∷ rounds n rows

event_rows-kept :
    (project low after n : ℕ) (log : List Logged)
    → low ≤ after + 1
    → Ascending by_id (of_project project log)
    → event_rows project after n (kept low log) ≡ take n (pending project after log)
unfolding event_rows
event_rows-kept project low after n log h a =
    ap (λ x. take n (sort_by by_id x)) (select-pending project low after log h)
    ∙ ap (take n)
        (sort_by-id _ (Ascending-select by_id (λ r. ltb after r.id) (of_project project log) a))

nil_of_length : (rows : List Logged) → length rows ≤ 0 → rows ≡ []
nil_of_length [] h = refl
nil_of_length (r ∷ rows) h = absurd (omega arith)

-- What a page takes off the rest.
rest_le : (n b : ℕ) (rows : List Logged) → length rows ≤ suc n * b → length (drop b rows) ≤ n * b
rest_le n b rows h = elim (Bool-cases (ltb (length (take b rows)) b)) [
  | inl e ↦ rw (drop-nil b rows (ground arith)) (omega arith)
  | inr e ↦ grind (arith, length-take-drop b rows, length-take-le b rows)
]

take-nil : (b : ℕ) (rows : List Logged) → 0 < b → take b rows ≡ [] → rows ≡ []
take-nil zero rows p h = absurd (omega arith)
take-nil (suc b) [] p h = refl
take-nil (suc b) (r ∷ rows) p h = cc

module _ (project low : ℕ) (log : List Logged) (a : Ascending by_id (of_project project log)) where
  page-catches :
      (n after : ℕ) (page : List Logged)
      → take stream_batch (pending project after log) ≡ page
      → length (pending project after log) ≤ suc n * stream_batch
      → ((next : ℕ)
          → after ≤ next
          → length (pending project next log) ≤ n * stream_batch
          → events_of (pump_loop project (rounds n (kept low log)) next) ≡ pending project next log)
      → events_of (pump_page (pump_loop project (rounds n (kept low log))) after page true)
        ≡ pending project after log
  unfolding pump_page events_of
  page-catches n after [] e h ih =
      ih after (omega arith)
        (rw (take-nil stream_batch (pending project after log) (omega arith) e) (omega arith))
  page-catches n after (r ∷ rows) e h ih =
      let rest = drop stream_batch (pending project after log) in
      let parts =
        sym (take-append-drop stream_batch (pending project after log)) ∙ ap (λ x. x ++ rest) e in
      let (on, remains) = page_written project after log r rows rest a parts in
      let fits =
        subst (λ x. length x ≤ n * stream_batch) (sym remains)
          (rest_le n stream_batch (pending project after log) h) in
      ap (λ x. r ∷ rows ++ x) (ih (last_or r rows).id (omega arith) fits ∙ remains) ∙ sym parts

  loop-catches :
      (n after : ℕ)
      → low ≤ after + 1
      → length (pending project after log) ≤ n * stream_batch
      → events_of (pump_loop project (rounds n (kept low log)) after) ≡ pending project after log
  unfolding pump_loop events_of
  loop-catches zero after h k = sym (nil_of_length (pending project after log) (omega arith))
  loop-catches (suc n) after h k = rw (event_rows-kept project low after stream_batch log h a) (
      page-catches n after (take stream_batch (pending project after log)) refl k
        (λ next later fits. loop-catches n next (omega arith) fits))

-- Once the log stops growing, a stream whose cursor retention has not overtaken delivers all that is
-- behind the cursor, in as many rounds as there are batches of 1000 in it, if their frames are
-- written.
pub pump_catches_up :
    (project low after n : ℕ) (log : List Logged)
    → Ascending by_id (of_project project log)
    → low ≤ after + 1
    → length (pending project after log) ≤ n * stream_batch
    → events_of (pump project low after (rounds n (kept low log))) ≡ pending project after log
unfolding pump
pump_catches_up project low after n log a h k = elim (Bool-cases (ltb (after + 1) low)) [
  | inl e ↦ absurd (ground arith)
  | inr e ↦ rw e (loop-catches project low log a n after h k)
]
