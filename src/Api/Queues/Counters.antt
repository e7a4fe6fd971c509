-- ===== src/Api/Queues/Counters.antt =====
-- The counters of the shards after insertions, deletions and the cap on tokens (migrations/030_shard_resize.sql).
use job_scheduling.Base.{
  ℕ, zero, suc, ◌≤◌, ◌≡◌, refl, sym, ◌∙◌, ap, subst, Bool, true, false, not, ◌&&◌, ◌||◌, List, [],
  ◌∷◌, arith, ltb, leb, ◌==◌, find, exists, update_all, select, delete_all, All, All-select,
  Bool-cases, inl, inr, ==_refl,
}
use job_scheduling.Store.{Queue, Shard, is_shard, in_flight}
use job_scheduling.Api.Queues.{share, add_shards, cap_tokens, of_queue_row, spread_rows}

present :
    (q n p s : ℕ) (there : ℕ → ℕ → Bool)
    → there q n ≡ true
    → (there p s || (q == p && ltb s n)) ≡ (there p s || (q == p && ltb s (suc n)))
present q n p s there e = elim (Bool-cases (q == p && n == s)) [
  | inl h ↦
      let same_queue : q ≡ p = ground arith in
      let same_shard : n ≡ s = ground arith in
      let k : there p s ≡ true = rw (← same_queue, ← same_shard) e in rw k refl
  | inr h ↦ ground arith
]

exists-add_shards :
    (now : ℕ) (q : Queue) (n p s : ℕ) (rows : List Shard)
    → exists (is_shard p s) (add_shards now q n rows)
      ≡ (exists (is_shard p s) rows || (q.id == p && ltb s n))
unfolding exists add_shards
exists-add_shards now q zero p s rows = ground arith
exists-add_shards now q (suc n) p s rows =
    let ih = exists-add_shards now q n p s rows in
    elim (Bool-cases (exists (is_shard q.id n) rows)) [
      | inl e ↦ rw (e, ih) (present q.id n p s (λ p' s'. exists (is_shard p' s') rows) e)
      | inr e ↦ rw (e, ih) (ground arith)
    ]

exists-cap_tokens :
    (q : Queue) (p s : ℕ) (rows : List Shard)
    → exists (is_shard p s) (update_all (of_queue_row q.id) (cap_tokens q) rows)
      ≡ exists (is_shard p s) rows
unfolding exists update_all
exists-cap_tokens q p s [] = refl
exists-cap_tokens q p s (r ∷ rows) = elim (Bool-cases (of_queue_row q.id r)) [
  | inl e ↦ rw (e, exists-cap_tokens q p s rows) refl
  | inr e ↦ rw (e, exists-cap_tokens q p s rows) refl
]

pub exists-dropped :
    (q n p s : ℕ) (rows : List Shard)
    → exists (is_shard p s) (delete_all (λ r. of_queue_row q r && leb n r.shard) rows)
      ≡ (exists (is_shard p s) rows && not (q == p && leb n s))
unfolding exists delete_all select
exists-dropped q n p s [] = refl
exists-dropped q n p s (r ∷ rows) = ground (arith, exists-dropped q n p s rows)

in_flight_absent :
    (p s : ℕ) (rows : List Shard) → exists (is_shard p s) rows ≡ false → in_flight p s rows ≡ 0
unfolding exists find
in_flight_absent p s [] h = refl
in_flight_absent p s (r ∷ rows) h = ground (arith, in_flight_absent p s rows)

in_flight-add_shards :
    (now : ℕ) (q : Queue) (n p s : ℕ) (rows : List Shard)
    → in_flight p s (add_shards now q n rows) ≡ in_flight p s rows
unfolding find add_shards
in_flight-add_shards now q zero p s rows = refl
in_flight-add_shards now q (suc n) p s rows =
    let ih = in_flight-add_shards now q n p s rows in
    elim (Bool-cases (exists (is_shard q.id n) rows)) [
      | inl e ↦ rw e ih
      | inr e ↦ rw e (elim (Bool-cases (q.id == p && n == s)) [
        | inl here ↦
            let same_queue : q.id ≡ p = ground arith in
            let same_shard : n ≡ s = ground arith in
            let none_yet = in_flight_absent q.id n rows e in
            rw here (
              sym (
                subst (λ x. in_flight x s rows ≡ 0) same_queue
                  (subst (λ x. in_flight q.id x rows ≡ 0) same_shard none_yet)))
        | inr off ↦ rw off ih
      ])
    ]

in_flight-cap_tokens :
    (q : Queue) (p s : ℕ) (rows : List Shard)
    → in_flight p s (update_all (of_queue_row q.id) (cap_tokens q) rows) ≡ in_flight p s rows
unfolding find update_all
in_flight-cap_tokens q p s [] = refl
in_flight-cap_tokens q p s (r ∷ rows) = elim (Bool-cases (of_queue_row q.id r)) [
  | inl e ↦ ground (arith, in_flight-cap_tokens q p s rows)
  | inr e ↦ ground (arith, in_flight-cap_tokens q p s rows)
]

pub in_flight-dropped :
    (q n p s : ℕ) (rows : List Shard)
    → exists (λ r. of_queue_row q r && ltb 0 r.in_flight) rows ≡ false
    → in_flight p s (delete_all (λ r. of_queue_row q r && leb n r.shard) rows) ≡ in_flight p s rows
unfolding find delete_all select exists
in_flight-dropped q n p s [] h = refl
in_flight-dropped q n p s (r ∷ rows) h =
    let ih = in_flight-dropped q n p s rows (ground arith) in
    let gone = in_flight_absent p s (delete_all (λ x. of_queue_row q x && leb n x.shard) rows) in
    let left = exists-dropped q n p s rows in
    elim (Bool-cases (of_queue_row q r && leb n r.shard)) [
      | inr kept ↦ elim (Bool-cases (is_shard p s r)) [
        | inl here ↦ rw (kept, here) refl
        | inr off ↦ rw (kept, off) ih
      ]
      | inl dropped ↦ elim (Bool-cases (is_shard p s r)) [
        | inr off ↦ rw (dropped, off) ih
        | inl here ↦
            let idle : r.in_flight ≡ 0 = ground arith in
            let beyond : (q == p && leb n s) ≡ true = ground arith in
            let missing = left ∙ ground arith in rw (dropped, here, idle) (gone missing)
      ]
    ]

-- The queue has a counter for each of its shards and no other, and none has more tokens than its
-- share of the burst.
abbrev pub Spread : Queue → List Shard → Type 0
Spread q rows =
    ((s : ℕ) → exists (is_shard q.id s) rows ≡ ltb s q.shards)
    × All (λ r. of_queue_row q.id r ≡ true → r.rl_tokens ≤ share q) rows

-- The counters of other queues, as they are.
abbrev pub Apart : ℕ → List Shard → List Shard → Type 0
Apart q rows rows' = (p : Queue) → (q == p.id) ≡ false → Spread p rows → Spread p rows'

cap_tokens-capped :
    (q : Queue) (rows : List Shard)
    → All
        (λ r. of_queue_row q.id r ≡ true → r.rl_tokens ≤ share q)
        (update_all (of_queue_row q.id) (cap_tokens q) rows)
unfolding update_all
cap_tokens-capped q [] = tt
cap_tokens-capped q (r ∷ rows) = elim (Bool-cases (of_queue_row q.id r)) [
  | inl e ↦ rw e (λ h. omega arith, cap_tokens-capped q rows)
  | inr e ↦ rw e (λ h. absurd (ground arith), cap_tokens-capped q rows)
]

-- A queue's counters after the insertions and the cap on tokens, where it had them all before.
pub spread_rows-Spread :
    (now : ℕ) (q : Queue) (rows : List Shard)
    → ((s : ℕ) → (exists (is_shard q.id s) rows || ltb s q.shards) ≡ ltb s q.shards)
    → Spread q (spread_rows now q rows)
unfolding spread_rows
spread_rows-Spread now q rows h = (
  λ s.
      exists-cap_tokens q q.id s (add_shards now q q.shards rows)
      ∙ exists-add_shards now q q.shards q.id s rows
      ∙ ap (λ b. exists (is_shard q.id s) rows || (b && ltb s q.shards)) (==_refl q.id)
      ∙ h s,
  cap_tokens-capped q (add_shards now q q.shards rows),
)

pub spread_rows-in_flight :
    (now : ℕ) (q : Queue) (p s : ℕ) (rows : List Shard)
    → in_flight p s (spread_rows now q rows) ≡ in_flight p s rows
unfolding spread_rows
spread_rows-in_flight now q p s rows =
    in_flight-cap_tokens q p s (add_shards now q q.shards rows)
    ∙ in_flight-add_shards now q q.shards p s rows

add_shards-capped :
    (now : ℕ) (q : Queue) (n p most : ℕ) (rows : List Shard)
    → (q.id == p) ≡ false
    → All (λ r. of_queue_row p r ≡ true → r.rl_tokens ≤ most) rows
    → All (λ r. of_queue_row p r ≡ true → r.rl_tokens ≤ most) (add_shards now q n rows)
unfolding add_shards
add_shards-capped now q zero p most rows h a = a
add_shards-capped now q (suc n) p most rows h a =
    elim (Bool-cases (exists (is_shard q.id n) rows)) [
      | inl e ↦ rw e (add_shards-capped now q n p most rows h a)
      | inr e ↦ rw e (λ k. absurd (ground arith), add_shards-capped now q n p most rows h a)
    ]

cap_tokens-other :
    (q : Queue) (p most : ℕ) (rows : List Shard)
    → (q.id == p) ≡ false
    → All (λ r. of_queue_row p r ≡ true → r.rl_tokens ≤ most) rows
    → All
        (λ r. of_queue_row p r ≡ true → r.rl_tokens ≤ most)
        (update_all (of_queue_row q.id) (cap_tokens q) rows)
unfolding update_all
cap_tokens-other q p most [] h a = tt
cap_tokens-other q p most (r ∷ rows) h (k, a) = elim (Bool-cases (of_queue_row q.id r)) [
  | inl e ↦ rw e (λ l. absurd (ground arith), cap_tokens-other q p most rows h a)
  | inr e ↦ rw e (k, cap_tokens-other q p most rows h a)
]

pub spread_rows-Apart :
    (now : ℕ) (q : Queue) (rows : List Shard) → Apart q.id rows (spread_rows now q rows)
unfolding spread_rows
spread_rows-Apart now q rows p other (there, capped) = (
  λ s.
      exists-cap_tokens q p.id s (add_shards now q q.shards rows)
      ∙ exists-add_shards now q q.shards p.id s rows
      ∙ ap (λ b. exists (is_shard p.id s) rows || (b && ltb s q.shards)) other
      ∙ or-false (exists (is_shard p.id s) rows)
      ∙ there s,
  cap_tokens-other q p.id (share p) (add_shards now q q.shards rows) other
      (add_shards-capped now q q.shards p.id (share p) rows other capped),
)
  where
    or-false : (b : Bool) → (b || false) ≡ b
    or-false true = refl
    or-false false = refl

pub dropped-Apart :
    (q n : ℕ) (rows : List Shard)
    → Apart q rows (delete_all (λ r. of_queue_row q r && leb n r.shard) rows)
unfolding delete_all
dropped-Apart q n rows p other (there, capped) = (
  λ s.
      exists-dropped q n p.id s rows
      ∙ ap (λ b. exists (is_shard p.id s) rows && not (b && leb n s)) other
      ∙ and-true (exists (is_shard p.id s) rows)
      ∙ there s,
  All-select _ (λ r. not (of_queue_row q r && leb n r.shard)) rows capped,
)
  where
    and-true : (b : Bool) → (b && true) ≡ b
    and-true true = refl
    and-true false = refl
