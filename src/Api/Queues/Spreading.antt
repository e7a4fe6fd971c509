-- ===== src/Api/Queues/Spreading.antt =====
-- The counters that fl.spread keeps for a queue (migrations/030_shard_resize.sql).
use job_scheduling.Base.{
  ℕ, ◌≡◌, ◌∙◌, ap, subst, Bool, true, false, not, ◌&&◌, ◌||◌, List, arith, ltb, leb, ◌==◌, exists,
  delete_all, Bool-cases, inl, inr, ==_refl,
}
use job_scheduling.Store.{Queue, Shard, Db, is_shard, in_flight}
use job_scheduling.Api.Problem.{done, conflict, require, ◌>>◌}
use job_scheduling.Api.Binds.{done-eq, bind-done, require-done}
use job_scheduling.Api.Queues.{of_queue_row, spread_rows, is_busy, respread}
use job_scheduling.Api.Queues.Counters.{
  exists-dropped, in_flight-dropped, Spread, Apart, spread_rows-Spread, spread_rows-in_flight,
  spread_rows-Apart, dropped-Apart,
}

-- What the trigger leaves of the counters after an update of the queue.
abbrev pub Respread : Queue → Queue → List Shard → List Shard → Type 0
Respread old q before after =
    (Spread old before → Spread q after)
    × Apart q.id before after
    × ((p s : ℕ) → in_flight p s after ≡ in_flight p s before)

kept : (a b c : ℕ) (e : Bool) → (b == c) ≡ true → e ≡ ltb a c → (e || ltb a b) ≡ ltb a b
kept a b c e h k = ground arith

Respread-same :
    (now : ℕ) (old q : Queue) (rows : List Shard)
    → q.id ≡ old.id
    → (q.shards == old.shards) ≡ true
    → Respread old q rows (spread_rows now q rows)
Respread-same now old q rows id e = (
  λ h. spread_rows-Spread now q rows (λ s.
      kept s q.shards old.shards (exists (is_shard q.id s) rows) e
        (ap (λ x. exists (is_shard x s) rows) id ∙ h.0 s)),
  spread_rows-Apart now q rows,
  λ p s. spread_rows-in_flight now q p s rows,
)

Respread-resized :
    (now : ℕ) (old q : Queue) (rows : List Shard)
    → exists (λ r. of_queue_row q.id r && ltb 0 r.in_flight) rows ≡ false
    → Respread old q rows
        (spread_rows now q (delete_all (λ r. of_queue_row q.id r && leb q.shards r.shard) rows))
Respread-resized now old q rows idle =
    let rest = delete_all (λ r. of_queue_row q.id r && leb q.shards r.shard) rows in
    (
      λ h. spread_rows-Spread now q rest (λ s. below s),
      λ p other spread.
          spread_rows-Apart now q rest p other (dropped-Apart q.id q.shards rows p other spread),
      λ p s. spread_rows-in_flight now q p s rest ∙ in_flight-dropped q.id q.shards p s rows idle,
    )
  where
    cut :
        (b : Bool) (s n : ℕ) (x : Bool)
        → x ≡ true
        → ((b && not (x && leb n s)) || ltb s n) ≡ ltb s n
    cut b s n x h = ground arith

    below :
        (s : ℕ)
        → (exists
              (is_shard q.id s)
              (delete_all (λ r. of_queue_row q.id r && leb q.shards r.shard) rows)
            || ltb s q.shards)
          ≡ ltb s q.shards
    below s =
        ap (λ b. b || ltb s q.shards) (exists-dropped q.id q.shards q.id s rows)
        ∙ cut (exists (is_shard q.id s) rows) s q.shards (q.id == q.id) (==_refl q.id)

idle_of : (a b : Bool) → not (a || b) ≡ true → a ≡ false
idle_of a b h = ground arith

pub respread_lem :
    (now : ℕ) (old q : Queue) (db : Db) (rows : List Shard)
    → q.id ≡ old.id
    → respread now old q db ≡ done rows
    → Respread old q db.shards rows
unfolding respread
respread_lem now old q db rows id h = elim (Bool-cases (q.shards == old.shards)) [
  | inl e ↦
      let same : done (spread_rows now q db.shards) ≡ done rows = rw e at h in
      subst (Respread old q db.shards) (done-eq _ rows same)
        (Respread-same now old q db.shards id e)
  | inr e ↦ resized (rw e at h)
]
  where
    resized :
        (require
              (not (is_busy q.id db))
              (conflict "shards cannot change while the queue holds running jobs")
            >> done (
                spread_rows now q
                  (delete_all (λ r. of_queue_row q.id r && leb q.shards r.shard) db.shards)))
          ≡ done rows
        → Respread old q db.shards rows
    resized k =
        let (u, free, k1) = bind-done _ _ rows k in
        subst (Respread old q db.shards) (done-eq _ rows k1) (
          Respread-resized now old q db.shards
            (idle_of _ _ (unfold is_busy in require-done _ _ u free)))
