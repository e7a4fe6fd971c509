-- ===== src/Api/Queues/Shaped.antt =====
-- What the requests of internal/api/queues.go keep of queues and their counters.
use text.Mathlib.TextEquality.{eq_iff}
use job_scheduling.Base.{
  ℕ, ◌≡◌, refl, sym, ap, subst, Bool, true, false, not, ◌||◌, none, some, List, [], ◌∷◌, ◌++◌,
  arith, ltb, ◌==◌, find, find_passes, find-All, exists, modify, delete_all, All, All-select,
  Bool-cases, inl, inr,
}
use job_scheduling.Store.{Queue, Shard, Db, is_shard, EventPayload}
use job_scheduling.Jobs.Admit.{is_queue}
use job_scheduling.Jobs.Start.{event}
use job_scheduling.Api.Problem.{done}
use job_scheduling.Api.Submit.{or_else}
use job_scheduling.Api.Binds.{done-eq, bind-done, expect-done, require-done}
use job_scheduling.Api.Keys.{Keyed, Keyed-cons, Keyed-modify, Keyed-select, All-modify}
use job_scheduling.Api.Policies.Checked.{not-true}
use job_scheduling.Api.Queues.Counters.{Spread, Apart, spread_rows-Spread, spread_rows-Apart}
use job_scheduling.Api.Queues.Spreading.{respread_lem}
use job_scheduling.Api.Queues.Removal.{delete_queue, found_before, delete_all-Spread}
use job_scheduling.Api.Queues.{
  QueueReq, Texts, queue_check, same_queue_name, queue_numbers, admit_queue_row, spread_rows,
  standard_queue, create_queue, new_row, update_queue, pause_topic, set_paused,
}

-- The rows pass the table's checks, no two of a project have one name, and each has its counters.
abbrev pub AreQueues : List Queue → List Shard → Type 0
AreQueues qs rows =
    All (λ q. queue_check q ≡ true) qs
    × Keyed same_queue_name qs
    × ((id : ℕ) (q : Queue) → find (is_queue id) qs ≡ some q → Spread q rows)

same_queue_name_comm : (q r : Queue) → same_queue_name q r ≡ same_queue_name r q
same_queue_name_comm q r = ground (arith, eq_iff q.name r.name, eq_iff r.name q.name)

same_queue_name_self : (q : Queue) → same_queue_name q q ≡ false
same_queue_name_self q = ground arith

queue_numbers-id : (req : QueueReq) (q q' : Queue) → queue_numbers req q ≡ done q' → q'.id ≡ q.id
unfolding queue_numbers
queue_numbers-id req q q' h =
    let (a, ha, h1) = bind-done _ _ _ h in
    let (b, hb, h2) = bind-done _ _ _ h1 in
    let (c, hc, h3) = bind-done _ _ _ h2 in
    let (d, hd, h4) = bind-done _ _ _ h3 in
    let (e, he, h5) = bind-done _ _ _ h4 in sym (ap (λ (x : Queue). x.id) (done-eq _ q' h5))

admit_queue_row_lem :
    (q : Queue) (qs : List Queue) (u : Unit {0})
    → admit_queue_row q qs ≡ done u
    → (queue_check q ≡ true) × (exists (same_queue_name q) qs ≡ false)
unfolding admit_queue_row
admit_queue_row_lem q qs u h =
    let (v, first, rest) = bind-done _ _ u h in
    (require-done _ _ v first, not-true _ (require-done _ _ u rest))

-- A lookup after a row is replaced: the row, or what was found before.
found_after :
    (P : Queue → Type 0) (id p : ℕ) (y q : Queue) (qs : List Queue)
    → y.id ≡ id
    → find (is_queue p) (modify (is_queue id) (new_row y) qs) ≡ some q
    → P y
    → ((r : Queue) → (id == p) ≡ false → find (is_queue p) qs ≡ some r → P r)
    → P q
unfolding find modify
found_after P id p y q [] e h new old = ground arith
found_after P id p y q (x ∷ qs) e h new old = elim (Bool-cases (is_queue id x)) [
  | inl hit ↦ elim (Bool-cases (is_queue p y)) [
    | inl here ↦ let same : y ≡ q = ground arith in subst P same new
    | inr off ↦ old q (ground arith) (ground arith)
  ]
  | inr miss ↦ elim (Bool-cases (is_queue p x)) [
    | inl here ↦ old q (ground arith) (ground arith)
    | inr off ↦ found_after P id p y q qs e (ground arith) new (λ r k l. old r k (ground arith))
  ]
]

apart_from : (a b c d : ℕ) → a ≡ b → (b == c) ≡ false → (d == c) ≡ true → (a == d) ≡ false
apart_from a b c d e h k = ground arith

create-AreQueues :
    (now : ℕ) (q : Queue) (qs : List Queue) (rows : List Shard)
    → queue_check q ≡ true
    → exists (same_queue_name q) qs ≡ false
    → find (is_queue q.id) qs ≡ none
    → ((s : ℕ) → exists (is_shard q.id s) rows ≡ false)
    → AreQueues qs rows
    → AreQueues (q ∷ qs) (spread_rows now q rows)
unfolding find
create-AreQueues now q qs rows check apart fresh no_rows (checks, keyed, spread) = (
  (check, checks),
  Keyed-cons same_queue_name same_queue_name_comm same_queue_name_self q qs apart keyed,
  λ p r h. elim (Bool-cases (is_queue p q)) [
    | inl here ↦
        let same : q ≡ r = ground arith in
        subst (λ x. Spread x (spread_rows now q rows)) same
          (spread_rows-Spread now q rows (λ s. ap (λ b. b || ltb s q.shards) (no_rows s)))
    | inr off ↦
        let found : find (is_queue p) qs ≡ some r = ground arith in
        let other : (q.id == r.id) ≡ false =
          apart_from q.id q.id p r.id refl off (find_passes (is_queue p) qs r found) in
        spread_rows-Apart now q rows r other (spread p r found)
  ],
)

update-AreQueues :
    (id : ℕ) (q : Queue) (qs : List Queue) (rows rows' : List Shard)
    → q.id ≡ id
    → queue_check q ≡ true
    → exists (same_queue_name q) qs ≡ false
    → Spread q rows'
    → Apart q.id rows rows'
    → AreQueues qs rows
    → AreQueues (modify (is_queue id) (new_row q) qs) rows'
update-AreQueues id q qs rows rows' e check apart new others (checks, keyed, spread) = (
  All-modify (λ x. queue_check x ≡ true) (is_queue id) q qs check checks,
  Keyed-modify same_queue_name same_queue_name_comm same_queue_name_self (is_queue id) q qs apart
      keyed,
  λ p r h.
      found_after (λ x. Spread x rows') id p q r qs e h new
        (λ x miss found.
          others x (apart_from q.id id p x.id e miss (find_passes (is_queue p) qs x found))
            (spread p x found)),
)

pub create_queue-AreQueues :
    (t : Texts) (now fresh project : ℕ) (req : QueueReq) (db : Db) (q : Queue) (db' : Db)
    → create_queue t now fresh project req db ≡ done (q, db')
    → find (is_queue fresh) db.queues ≡ none
    → ((s : ℕ) → exists (is_shard fresh s) db.shards ≡ false)
    → AreQueues db.queues db.shards
    → (qs : List Queue) × (rows : List Shard) × (record db { queues = qs; shards = rows } ≡ db')
      × AreQueues qs rows
unfolding create_queue
create_queue-AreQueues t now fresh project req db q db' h unused no_rows a =
    let (u, named, h1) = bind-done _ _ _ h in
    let (text, given, h2) = bind-done _ _ _ h1 in
    let (policy, owned, h3) = bind-done _ _ _ h2 in
    let (p, filled, h4) = bind-done _ _ _ h3 in
    let (v, fits, h5) = bind-done _ _ _ h4 in
    let (check, apart) = admit_queue_row_lem p db.queues v fits in
    let id =
      queue_numbers-id req
        (standard_queue fresh project (t.trim (or_else req.name "")) (or_else policy 0)) p filled in
    let unused' : find (is_queue p.id) db.queues ≡ none = rw id unused in
    let no_rows' : (s : ℕ) → exists (is_shard p.id s) db.shards ≡ false = rw id no_rows in
    (
      p ∷ db.queues,
      spread_rows now p db.shards,
      ap (λ (r : Queue × Db). r.1) (done-eq _ (q, db') h5),
      create-AreQueues now p db.queues db.shards check apart unused' no_rows' a,
    )

pub update_queue-AreQueues :
    (t : Texts) (now project id : ℕ) (req : QueueReq) (db : Db) (q : Queue) (db' : Db)
    → update_queue t now project id req db ≡ done (q, db')
    → AreQueues db.queues db.shards
    → (qs : List Queue) × (rows : List Shard) × (record db { queues = qs; shards = rows } ≡ db')
      × AreQueues qs rows
unfolding update_queue
update_queue-AreQueues t now project id req db q db' h a =
    let (policy, owned, h1) = bind-done _ _ _ h in
    let (old, found, h2) = bind-done _ _ _ h1 in
    let (p, filled, h3) = bind-done _ _ _ h2 in
    let (v, fits, h4) = bind-done _ _ _ h3 in
    let (rows, spread, h5) = bind-done _ _ _ h4 in
    let (check, apart) = admit_queue_row_lem p db.queues v fits in
    let at = expect-done _ _ old found in
    let same =
      queue_numbers-id req
        (record old { name = or_else req.name old.name; policy = or_else policy old.policy }) p
        filled in
    let here : p.id ≡ id =
      let old_id = find_passes (is_queue id) db.queues old at in ground arith in
    let (all, others, counters) = respread_lem now old p db rows same spread in
    (
      modify (is_queue id) (new_row p) db.queues,
      rows,
      ap (λ (r : Queue × Db). r.1) (done-eq _ (q, db') h5),
      update-AreQueues id p db.queues db.shards rows here check apart (all (a.2 id old at)) others
          a,
    )

pub set_paused-AreQueues :
    (project id : ℕ) (paused : Bool) (db db' : Db)
    → set_paused project id paused db ≡ done db'
    → AreQueues db.queues db.shards
    → (qs : List Queue) × (record db {
      queues = qs;
      events =
          db.events ++ event (pause_topic paused) id project (EventPayload.paused_is paused) ∷ [];
    }
        ≡ db')
      × AreQueues qs db.shards
unfolding set_paused queue_check
set_paused-AreQueues project id paused db db' h a =
    let (old, found, h1) = bind-done _ _ _ h in
    let at = expect-done _ _ old found in
    let here : old.id ≡ id =
      let passes = find_passes (is_queue id) db.queues old at in ground arith in
    (
      modify (is_queue id) (new_row (record old { paused = paused })) db.queues,
      done-eq _ db' h1,
      update-AreQueues id (record old { paused = paused }) db.queues db.shards db.shards here
          (find-All (λ x. queue_check x ≡ true) (is_queue id) db.queues old at a.0)
          (find-All (λ x. exists (same_queue_name x) db.queues ≡ false) (is_queue id) db.queues old
            at a.1)
          (a.2 id old at) (λ p off s. s) a,
    )

pub delete_queue-AreQueues :
    (id : ℕ) (db : Db)
    → AreQueues db.queues db.shards
    → AreQueues (delete_queue id db).queues (delete_queue id db).shards
unfolding delete_queue delete_all
delete_queue-AreQueues id db (checks, keyed, spread) =
    let stays : Queue → Bool = λ q. not (is_queue id q) in
    (
      All-select _ stays db.queues checks,
      Keyed-select same_queue_name same_queue_name_comm same_queue_name_self stays db.queues keyed,
      λ p q h.
          let (found, other) = found_before id p q db.queues h in
          let key = find_passes (is_queue p) db.queues q found in
          let off : (id == q.id) ≡ false = ground arith in
          delete_all-Spread id q db.shards off (spread p q found),
    )
