-- ===== src/Api/Pages/Walk.antt =====
-- A client that follows the cursors of listJobs to the end.
use job_scheduling.Base.{
  ℕ, zero, suc, ◌≤◌, ◌<◌, ◌≡◌, refl, sym, ◌∙◌, ap, fun_ext, Bool, true, false, ◌&&◌, ◌||◌, Option,
  none, some, List, [], ◌∷◌, ◌++◌, arith, ltb, ◌⊎◌, Bool-cases, inl, inr, select, sort_by, take,
  drop, length, last_or, map, elem, All, Comparable, Ascending, Comparable-select, Ascending-select,
  sort_by-Ascending, select-sort_by, select-behind, select-select_behind, take-append-drop,
  length-take-drop, drop-nil, All-last_or_take, select-passes, append-nil, length-take-le,
}
use job_scheduling.Store.{Job, Db}
use job_scheduling.Api.Problem.{done, refused, ◌>>=◌}
use job_scheduling.Api.Links.{repeats}
use job_scheduling.Api.Pages.{
  Codec, ListReq, Filter, list_jobs, filter_of, decode_cursor, encode_cursor, next_cursor,
  page_limit, newer,
}
use job_scheduling.Api.Pages.Cursors.{IsCodec, decode_cursor-encode_cursor, page_limit_bounds}
use job_scheduling.Api.Pages.Built.{matches, behind, execute-listing}

newer_trans : (a b c : Job) → newer a b ≡ true → newer b c ≡ true → newer a c ≡ true
unfolding newer
newer_trans a b c h k = ground arith

newer-asym : (a b : Job) → newer a b ≡ true → newer b a ≡ false
unfolding newer
newer-asym a b h = ground arith

-- Rows with ids of their own compare.
newer-All :
    (j : Job) (jobs : List Job)
    → elem j.id (map (λ k. k.id) jobs) ≡ false
    → All (λ k. (newer j k || newer k j) ≡ true) jobs
unfolding elem newer
newer-All j [] h = tt
newer-All j (k ∷ jobs) h = (ground arith, newer-All j jobs (ground arith))

distinct-Comparable :
    (jobs : List Job) → repeats (map (λ k. k.id) jobs) ≡ false → Comparable newer jobs
unfolding repeats
distinct-Comparable [] h = tt
distinct-Comparable (j ∷ jobs) h =
    (newer-All j jobs (ground arith), distinct-Comparable jobs (ground arith))

Nat-cases : (m n : ℕ) → m ≤ n → (m < n) ⊎ (m ≡ n)
Nat-cases m n h = elim (Bool-cases (ltb m n)) [
  | inl e ↦ inl (ground arith)
  | inr e ↦ inr (ground arith)
]

abbrev follow : (List ℕ → List Job) → List ℕ → List Job
follow more [] = []
follow more (b ∷ bs) = more (b ∷ bs)

-- A request for the first page, and for the next ones while there is a cursor.
unfoldable pub walk : Codec → ℕ → ListReq → Db → ℕ → List ℕ → List Job
walk c project req db zero cursor = []
walk c project req db (suc fuel) cursor = elim (list_jobs c project req cursor db) [
  | refused e ↦ []
  | done (rows, next) ↦ rows ++ follow (walk c project req db fuel) next
]

-- Everything that is asked for, newest first.
abbrev pub newest_first : ℕ → Filter → List Job → List Job
newest_first project f jobs = sort_by newer (select (matches project f) jobs)

-- The rest of a listing behind one of its rows.
abbrev rest_of : List Job → Option Job → List Job
rest_of listed none = listed
rest_of listed (some j) = select (newer j) listed

abbrev cursor_of : Codec → Option Job → List ℕ
cursor_of c none = []
cursor_of c (some j) = encode_cursor c j.created_at j.id

abbrev key_of : Option Job → Option (ℕ × ℕ)
key_of none = none
key_of (some j) = some (j.created_at, j.id)

decode_cursor-cursor_of :
    (c : Codec) → IsCodec c → (o : Option Job) → decode_cursor c (cursor_of c o) ≡ done (key_of o)
unfolding decode_cursor
decode_cursor-cursor_of c k none = refl
decode_cursor-cursor_of c k (some j) = decode_cursor-encode_cursor c j.created_at j.id k

select-select :
    {A : Type 0} (p q : A → Bool) (xs : List A)
    → select q (select p xs) ≡ select (λ x. p x && q x) xs
unfolding select
select-select p q [] = refl
select-select p q (x ∷ xs) = elim (Bool-cases (p x)) [
  | inl e ↦ elim (Bool-cases (q x)) [
    | inl h ↦ rw (e, h, select-select p q xs) refl
    | inr h ↦ rw (e, h, select-select p q xs) refl
  ]
  | inr e ↦ rw (e, select-select p q xs) refl
]

sorted_rest :
    (project : ℕ) (f : Filter) (jobs : List Job) (o : Option Job)
    → Comparable newer jobs
    → sort_by newer (select (λ j. matches project f j && behind (key_of o) j) jobs)
      ≡ rest_of (newest_first project f jobs) o
unfolding newer
sorted_rest project f jobs none c =
    ap (λ p. sort_by newer (select p jobs)) (fun_ext (λ j. ground arith))
sorted_rest project f jobs (some k) c =
    ap (sort_by newer) (sym (select-select (matches project f) (newer k) jobs))
    ∙ sym (
        select-sort_by newer newer_trans newer-asym (newer k) (select (matches project f) jobs)
          (Comparable-select newer (matches project f) jobs c))

listed-Ascending :
    (project : ℕ) (f : Filter) (jobs : List Job)
    → Comparable newer jobs
    → Ascending newer (newest_first project f jobs)
listed-Ascending project f jobs c =
    sort_by-Ascending newer newer_trans newer-asym (select (matches project f) jobs)
      (Comparable-select newer (matches project f) jobs c)

rest_of-Ascending :
    (listed : List Job) (o : Option Job)
    → Ascending newer listed
    → Ascending newer (rest_of listed o)
rest_of-Ascending listed none a = a
rest_of-Ascending listed (some k) a = Ascending-select newer (newer k) listed a

-- What a request for the page behind a row answers.
page_lem :
    (c : Codec) (project : ℕ) (req : ListReq) (f : Filter) (o : Option Job) (db : Db)
    → IsCodec c
    → Comparable newer db.jobs
    → filter_of c req ≡ done f
    → let rows = take (page_limit c req.limit) (rest_of (newest_first project f db.jobs) o) in
      list_jobs c project req (cursor_of c o) db
      ≡ done (rows, next_cursor c (page_limit c req.limit) rows)
unfolding list_jobs ◌>>=◌
page_lem c project req f o db k d h =
    let found =
      execute-listing project f.status f.kind f.queue (key_of o) (page_limit c req.limit) db.jobs in
    let sorted = ap (take (page_limit c req.limit)) (sorted_rest project f db.jobs o d) in
    rw (h, decode_cursor-cursor_of c k o, found ∙ sorted) refl

-- The next cursor of a full page is its last row's, and a page that is not full has none.
next_cursor_full :
    (c : Codec) (n : ℕ) (d : Job) (rows : List Job)
    → 0 < n
    → length rows ≡ n
    → next_cursor c n rows ≡ cursor_of c (some (last_or d rows))
unfolding next_cursor
next_cursor_full c n d [] p h = absurd (omega arith)
next_cursor_full c n d (j ∷ rows) p h = ground arith

next_cursor_short :
    (c : Codec) (n : ℕ) (rows : List Job) → length rows < n → next_cursor c n rows ≡ []
unfolding next_cursor
next_cursor_short c n [] h = refl
next_cursor_short c n (j ∷ rows) h = ground arith

-- Behind the last row of a full page is the rest of the listing.
rest_behind :
    (listed : List Job) (o : Option Job) (n : ℕ) (d : Job)
    → Ascending newer listed
    → 0 < n
    → n ≤ length (rest_of listed o)
    → rest_of listed (some (last_or d (take n (rest_of listed o)))) ≡ drop n (rest_of listed o)
rest_behind listed none n d a p h = select-behind newer newer_trans newer-asym n d listed a p h
rest_behind listed (some k) n d a p h =
    let rest = select (newer k) listed in
    let later : newer k (last_or d (take n rest)) ≡ true =
      All-last_or_take (λ j. newer k j ≡ true) n d rest (select-passes (newer k) listed) p h in
    sym (select-select_behind newer newer_trans newer-asym k _ listed later)
    ∙ select-behind newer newer_trans newer-asym n d rest (rest_of-Ascending listed (some k) a) p h

follow_text :
    (c : Codec) (text : List ℕ) (key : ℕ × ℕ) (more : List ℕ → List Job)
    → decode_cursor c text ≡ done (some key)
    → follow more text ≡ more text
unfolding decode_cursor
follow_text c [] key more h = ground arith
follow_text c (b ∷ bs) key more h = refl

walk_step :
    (c : Codec) (project : ℕ) (req : ListReq) (db : Db) (fuel : ℕ) (cursor next : List ℕ)
    (rows : List Job)
    → list_jobs c project req cursor db ≡ done (rows, next)
    → walk c project req db (suc fuel) cursor ≡ rows ++ follow (walk c project req db fuel) next
unfolding walk
walk_step c project req db fuel cursor next rows h = rw (walk, h) refl

first_of : (jobs : List Job) → 0 < length jobs → Job
first_of [] h = absurd (omega arith)
first_of (j ∷ jobs) h = j

-- After a full page there is a cursor, and the rest of the listing behind its row.
full_page :
    (c : Codec) (listed : List Job) (o : Option Job) (n : ℕ)
    → Ascending newer listed
    → 0 < n
    → length (take n (rest_of listed o)) ≡ n
    → n ≤ length (rest_of listed o)
    → (j : Job) × (next_cursor c n (take n (rest_of listed o)) ≡ cursor_of c (some j))
      × (rest_of listed (some j) ≡ drop n (rest_of listed o))
full_page c listed o n a p full h =
    let d = first_of (rest_of listed o) (omega arith) in
    let j = last_or d (take n (rest_of listed o)) in
    (j, next_cursor_full c n d (take n (rest_of listed o)) p full, rest_behind listed o n d a p h)

module _ (c : Codec) (project : ℕ) (req : ListReq) (f : Filter) (db : Db) (k : IsCodec c)
    (d : Comparable newer db.jobs) (asked : filter_of c req ≡ done f) where
  walk-rest_of :
      (fuel : ℕ) (o : Option Job)
      → length (rest_of (newest_first project f db.jobs) o) < fuel
      → walk c project req db fuel (cursor_of c o) ≡ rest_of (newest_first project f db.jobs) o
  walk-rest_of zero o h = absurd (omega arith)
  walk-rest_of (suc fuel) o h =
      let listed = newest_first project f db.jobs in
      let rest = rest_of listed o in
      let n = page_limit c req.limit in
      let rows = take n rest in
      let room = page_limit_bounds c req.limit in
      let step =
        walk_step c project req db fuel (cursor_of c o) (next_cursor c n rows) rows
          (page_lem c project req f o db k d asked) in
      let whole = take-append-drop n rest in
      let sizes = length-take-drop n rest in
      elim (Nat-cases (length rows) n (length-take-le n rest)) [
        | inl short ↦
            let ended = next_cursor_short c n rows short in
            step
            ∙ ap (λ next. rows ++ follow (walk c project req db fuel) next) ended
            ∙ append-nil rows
            ∙ sym (append-nil rows)
            ∙ ap (λ more. rows ++ more) (sym (drop-nil n rest short))
            ∙ whole
        | inr full ↦
            let (j, next, behind_j) =
              full_page c listed o n (listed-Ascending project f db.jobs d) room.0 full
                (omega arith) in
            let shorter : length (rest_of listed (some j)) < fuel = rw behind_j (omega arith) in
            let more =
              follow_text c (cursor_of c (some j)) (j.created_at, j.id) (walk c project req db fuel)
                (decode_cursor-cursor_of c k (some j)) in
            step
            ∙ ap (λ x. rows ++ follow (walk c project req db fuel) x) next
            ∙ ap (λ x. rows ++ x) (more ∙ walk-rest_of fuel (some j) shorter ∙ behind_j)
            ∙ whole
      ]

-- Following the cursors from the first page to the end, in pages of any size that pageLimit allows,
-- lists every job that the request asks for exactly once, newest first, and then ends: the pages
-- put together are the whole listing sorted at once. The ids of the jobs are distinct, the table
-- stays as it is meanwhile, and one request more than there are jobs to list is enough.
pub walk_lem :
    (c : Codec) (project : ℕ) (req : ListReq) (f : Filter) (db : Db) (fuel : ℕ)
    → IsCodec c
    → repeats (map (λ j. j.id) db.jobs) ≡ false
    → filter_of c req ≡ done f
    → length (newest_first project f db.jobs) < fuel
    → walk c project req db fuel [] ≡ newest_first project f db.jobs
walk_lem c project req f db fuel k distinct asked h =
    walk-rest_of c project req f db k (distinct-Comparable db.jobs distinct) asked fuel none h
