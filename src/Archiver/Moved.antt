-- ===== src/Archiver/Moved.antt =====
-- What the archiver moves: nothing is lost, nothing that still runs is touched, and it ends.
use job_scheduling.Base.{
  ℕ, zero, suc, ◌+◌, ◌≤◌, ◌<◌, ◌≡◌, ◌≢◌, refl, sym, ◌∙◌, subst, Bool, true, false, not, ◌&&◌, ◌||◌,
  Option, none, some, List, [], ◌∷◌, ◌++◌, ltb, ◌==◌, if◌then◌else◌, select, length-select-le,
  exists, sort_by, insert_sorted, take, length, elem, map, count, arith, Bool-cases, inl, inr,
}
use job_scheduling.Store.{Job, Execution, DeadLetter, Db, DbError}
use job_scheduling.Jobs.Slots.{holds, active}
use job_scheduling.Jobs.Lease.{Answer, value, error}
use job_scheduling.Archiver.{
  Archive, is_old, pick, movable, move, move_picked, archive, by_finish, Round, drain,
}

-- A selection and its rest are the whole.
count-split :
    {A : Type 0} (p q : A → Bool) (xs ys : List A)
    → count p (select (λ x. not (q x)) xs) + count p (select q xs ++ ys) ≡ count p xs + count p ys
unfolding count select
count-split p q [] ys = refl
count-split p q (x ∷ xs) ys = ground (arith, count-split p q xs ys)

-- A test that the selected pass too counts none of the others.
count-select_off :
    {A : Type 0} (p q : A → Bool)
    → ((x : A) → q x ≡ true → p x ≡ false)
    → (xs : List A) → count p (select (λ x. not (q x)) xs) ≡ count p xs
unfolding count select
count-select_off p q h [] = refl
count-select_off p q h (x ∷ xs) = ground (arith, h x, count-select_off p q h xs)

-- Every test counts as many jobs, executions and dead letters in the tables and the archive together
-- as before, no shard has fewer claimed and running jobs, and an error has changed nothing.
abbrev pub Conserved : Db → Archive → Answer ℕ × Db × Archive → Type 0
Conserved db ar (answer, db', ar') =
    ((p : Job → Bool) → count p db'.jobs + count p ar'.jobs ≡ count p db.jobs + count p ar.jobs)
    × ((p : Execution → Bool)
        → count p db'.executions + count p ar'.executions
          ≡ count p db.executions + count p ar.executions)
    × ((p : DeadLetter → Bool)
        → count p db'.dead_letters + count p ar'.dead_letters
          ≡ count p db.dead_letters + count p ar.dead_letters)
    × ((q s : ℕ) → active q s db'.jobs ≡ active q s db.jobs)
    × ((e : DbError) → answer ≡ error e → (db' ≡ db) × (ar' ≡ ar))

movable-idle :
    (now after dead_letter : ℕ) (locked : ℕ → Bool) (xs : List Execution) (ids : List ℕ) (q s : ℕ)
    (j : Job)
    → movable now after dead_letter locked xs ids j ≡ true
    → holds q s j ≡ false
unfolding movable is_old
movable-idle now after dead_letter locked xs ids q s j h = ground arith

move_picked-Conserved :
    (now after dead_letter : ℕ) (locked : ℕ → Bool) (ids : List ℕ) (db : Db) (ar : Archive)
    → Conserved db ar (move_picked now after dead_letter locked ids db ar)
unfolding move_picked move active
move_picked-Conserved now after dead_letter locked [] db ar =
    (λ p. refl, λ p. refl, λ p. refl, λ q s. refl, λ e h. (refl, refl))
move_picked-Conserved now after dead_letter locked (i ∷ is) db ar =
    let old = movable now after dead_letter locked db.executions (i ∷ is) in
    (
      λ p. count-split p old db.jobs ar.jobs,
      λ p. count-split p (λ x. elem x.job (i ∷ is)) db.executions ar.executions,
      λ p. count-split p (λ d. elem d.job (i ∷ is)) db.dead_letters ar.dead_letters,
      λ q s.
          count-select_off (holds q s) old
            (movable-idle now after dead_letter locked db.executions (i ∷ is) q s) db.jobs,
      λ e h. ground arith,
    )

-- One round of the archiver loses nothing and doubles nothing: every test counts as many jobs,
-- executions and dead letters in the tables and the archive together as before. It moves no job that
-- is claimed or running, on any shard. If its transaction fails, nothing has changed.
pub archive_lem :
    (fault : Option DbError) (now after dead_letter : ℕ) (locked : ℕ → Bool) (limit : ℕ) (db : Db)
    (ar : Archive)
    → Conserved db ar (archive fault now after dead_letter locked limit db ar)
unfolding archive
archive_lem (some e) now after dead_letter locked limit db ar =
    (λ p. refl, λ p. refl, λ p. refl, λ q s. refl, λ e' h. (refl, refl))
archive_lem none now after dead_letter locked limit db ar =
    move_picked-Conserved now after dead_letter locked (pick now after dead_letter locked limit db)
      db ar

-- What is picked is there.
exists-take :
    {A : Type 0} (p : A → Bool) (n : ℕ) (xs : List A)
    → exists p (take n xs) ≡ true
    → exists p xs ≡ true
unfolding exists
exists-take p zero xs h = ground arith
exists-take p (suc n) [] h = h
exists-take p (suc n) (x ∷ xs) h = ground (arith, exists-take p n xs)

exists-insert_sorted :
    {A : Type 0} (p : A → Bool) (lt : A → A → Bool) (x : A) (xs : List A)
    → exists p (insert_sorted lt x xs) ≡ (p x || exists p xs)
unfolding exists insert_sorted
exists-insert_sorted p lt x [] = refl
exists-insert_sorted p lt x (y ∷ ys) = ground (arith, exists-insert_sorted p lt x ys)

exists-sort_by :
    {A : Type 0} (p : A → Bool) (lt : A → A → Bool) (xs : List A)
    → exists p (sort_by lt xs) ≡ exists p xs
unfolding exists sort_by
exists-sort_by p lt [] = refl
exists-sort_by p lt (x ∷ xs) =
    ground (arith, exists-insert_sorted p lt x (sort_by lt xs), exists-sort_by p lt xs)

exists-select :
    {A : Type 0} (p q : A → Bool) (xs : List A)
    → exists p (select q xs) ≡ true
    → exists (λ x. p x && q x) xs ≡ true
unfolding exists select
exists-select p q [] h = h
exists-select p q (x ∷ xs) h = ground (arith, exists-select p q xs)

-- A selection that leaves something out is shorter.
length-select_some :
    {A : Type 0} (q : A → Bool) (xs : List A)
    → exists q xs ≡ true
    → length (select (λ x. not (q x)) xs) < length xs
unfolding exists select
length-select_some q [] h = ground arith
length-select_some q (x ∷ xs) h =
    ground (arith, length-select_some q xs, length-select-le (λ y. not (q y)) xs)

exists-wider :
    {A : Type 0} (p q : A → Bool)
    → ((x : A) → p x ≡ true → q x ≡ true)
    → (xs : List A) → exists p xs ≡ true
    → exists q xs ≡ true
unfolding exists
exists-wider p q h [] e = e
exists-wider p q h (x ∷ xs) e = ground (arith, h x, exists-wider p q h xs)

module _ (now after dead_letter : ℕ) (locked : ℕ → Bool) (limit : ℕ) (db : Db) where
  abbrev chosen : List Job
  chosen =
      take limit
        (sort_by by_finish (select (is_old now after dead_letter locked db.executions) db.jobs))

  chosen-there :
      (c : Job) (cs : List Job)
      → chosen ≡ c ∷ cs
      → exists
          (movable now after dead_letter locked db.executions (map (λ j. j.id) (c ∷ cs)))
          db.jobs
        ≡ true
  unfolding movable elem exists
  chosen-there c cs e =
      let p : Job → Bool = λ j. j.id == c.id in
      let old = is_old now after dead_letter locked db.executions in
      let first : exists p (c ∷ cs) ≡ true = ground arith in
      let picked = exists-take p limit _ (subst (λ l. exists p l ≡ true) (sym e) first) in
      let sorted = sym (exists-sort_by p by_finish (select old db.jobs)) ∙ picked in
      exists-wider _ _ (λ j h. ground arith) db.jobs (exists-select p old db.jobs sorted)

-- A round that picks a job leaves fewer.
archive-shrinks :
    (fault : Option DbError) (now after dead_letter : ℕ) (locked : ℕ → Bool) (limit n : ℕ) (db : Db)
    (ar : Archive)
    → (archive fault now after dead_letter locked limit db ar).0 ≡ value n
    → 0 < n
    → length (archive fault now after dead_letter locked limit db ar).1.jobs < length db.jobs
unfolding archive pick move_picked move
archive-shrinks (some e) now after dead_letter locked limit n db ar h pos = ground arith
archive-shrinks none now after dead_letter locked limit n db ar h pos =
    go (chosen now after dead_letter locked limit db) refl h
  where
    go :
        (l : List Job)
        → chosen now after dead_letter locked limit db ≡ l
        → (move_picked now after dead_letter locked (map (λ j. j.id) l) db ar).0 ≡ value n
        → length (move_picked now after dead_letter locked (map (λ j. j.id) l) db ar).1.jobs
          < length db.jobs
    go [] e h = ground arith
    go (c ∷ cs) e h =
        length-select_some _ db.jobs (chosen-there now after dead_letter locked limit db c cs e)

-- A round ends the loop, or leaves it to the next.
drain-step :
    (answer : Answer ℕ) (batch : ℕ) (here : Db × Archive) (again : Option (Db × Archive))
    → ((n : ℕ) → answer ≡ value n → batch ≤ n → again ≢ none)
    → (elim answer [ error e ↦ some here | value n ↦ if ltb n batch then some here else again ])
      ≢ none
drain-step (error e) batch here again h = ground arith
drain-step (value n) batch here again h = elim (Bool-cases (ltb n batch)) [
  | inl less ↦ rw less (ground arith)
  | inr more ↦ rw more (h n refl (ground arith))
]

-- The inner loop of Run ends, if a batch is one job at least and no new jobs are old enough
-- meanwhile: one more round than there are jobs is fuel enough.
pub drain_ends :
    (after dead_letter batch : ℕ) (meets : ℕ → Round) (fuel i : ℕ) (db : Db) (ar : Archive)
    → 0 < batch
    → length db.jobs < fuel
    → drain after dead_letter batch meets fuel i db ar ≢ none
unfolding drain
drain_ends after dead_letter batch meets zero i db ar pos h = ground arith
drain_ends after dead_letter batch meets (suc fuel) i db ar pos h =
    let r = archive (meets i).fault (meets i).now after dead_letter (λ _. false) batch db ar in
    drain-step r.0 batch (r.1, r.2) _
      λ n e le. drain_ends after dead_letter batch meets fuel (i + 1) r.1 r.2 pos (
        omega (
          arith,
          archive-shrinks (meets i).fault (meets i).now after dead_letter (λ _. false) batch n db ar
              e (omega arith),
        ))
