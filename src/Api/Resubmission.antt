-- ===== src/Api/Resubmission.antt =====
-- The Idempotency-Key of submitJob (internal/api/jobs.go).
use job_scheduling.Base.{
  ℕ, ◌+◌, ◌<◌, ◌≡◌, refl, ap, ◌∙◌, subst, Bool, true, false, Option, none, some, List, [], ◌∷◌,
  String, str_eq, arith, leb, find, Bool-cases, inl, inr, if_elim, ==_refl,
}
use text.Mathlib.TextPositions.{eq_refl}
use job_scheduling.Store.{Job, Db, IdempotencyKey}
use job_scheduling.Jobs.Claim.{has_id}
use job_scheduling.Api.Problem.{done, ◌>>=◌}
use job_scheduling.Api.Links.{parent_ids, pending_parents, link}
use job_scheduling.Api.Submit.{
  SubmitReq, Libraries, Call, Draft, new_job, save_key, link_parents, Submitted, created, existing,
  insert_job, with_key, submit_draft, is_key, is_empty,
}
use job_scheduling.System.Submission.{Holds, Holds-bind, Holds-then}

-- The key names this job, under this fingerprint, until its life is over; and the job is there.
abbrev pub Recorded : Call → String → Submitted × Db → Type 0
Recorded call fp (existing j, db) = Unit
Recorded call fp (created j, db) =
    ((k : IdempotencyKey) × (find (is_key call.queue call.key) db.idempotency_keys ≡ some k)
      × (k.job ≡ j.id)
      × (k.fingerprint ≡ fp)
      × (k.expires_at ≡ call.now + 86400000000))
    × (find (has_id j.id) db.jobs ≡ some j)

-- The key's row is the first one, and the job's too.
abbrev Keyed : Call → String → Job → Db → Type 0
Keyed call fp j db =
    ((k : IdempotencyKey) × (find (is_key call.queue call.key) db.idempotency_keys ≡ some k)
      × (k.job ≡ call.fresh)
      × (k.fingerprint ≡ fp)
      × (k.expires_at ≡ call.now + 86400000000))
    × (find (has_id j.id) db.jobs ≡ some j)

find-first {ℓ} :
    {A : Type ℓ} (p : A → Bool) (x : A) (xs : List A) → p x ≡ true → find p (x ∷ xs) ≡ some x
unfolding find
find-first p x xs h = rw h refl

-- The row that save_key writes.
abbrev key_row : Call → String → IdempotencyKey
key_row call fp = record {
  queue = call.queue;
  key = call.key;
  job = call.fresh;
  fingerprint = fp;
  expires_at = call.now + 86400000000;
}

save_key-Keyed :
    (call : Call) (fp : String) (j : Job) (db : Db)
    → is_empty call.key ≡ false
    → find (has_id j.id) db.jobs ≡ some j
    → Holds (Keyed call fp j) (save_key call fp db)
unfolding save_key
save_key-Keyed call fp j db e h = elim (Bool-cases call.raced) [
  | inl lost ↦ rw (e, lost) tt
  | inr won ↦
      let mine : is_key call.queue call.key (key_row call fp) ≡ true =
        rw (==_refl call.queue, eq_refl call.key) refl in
      let first =
        find-first (is_key call.queue call.key) (key_row call fp) db.idempotency_keys mine in
      rw (e, won) ((key_row call fp, first, refl, refl, refl), h)
]

link-Keyed :
    (call : Call) (fp : String) (j : Job) (child : ℕ) (parents : List ℕ) (db : Db)
    → Keyed call fp j db
    → Holds (Keyed call fp j) (link_parents child parents db)
unfolding link_parents link
link-Keyed call fp j child [] db k = k
link-Keyed call fp j child (p ∷ ps) db k = Holds-then (Keyed call fp j) _ _ λ _.
    Holds-then (Keyed call fp j) _ _ λ _.
      Holds-then (Keyed call fp j) _ _
        λ _. Holds-then (Keyed call fp j) _ (λ _. done (record db { dependencies = _ })) λ _. k

insert_job-Recorded :
    (lib : Libraries) (req : SubmitReq) (call : Call) (d : Draft) (fp : String) (db : Db)
    → is_empty call.key ≡ false
    → Holds (Recorded call fp) (insert_job lib req call d fp db)
unfolding insert_job
insert_job-Recorded lib req call d fp db e =
    Holds-then (Recorded call fp) (parent_ids lib.parse_uuid req.depends_on) _ λ parents.
      let j = new_job d call (pending_parents parents call.project db.jobs) in
      let added = record db { jobs = j ∷ db.jobs } in
      Holds-then (Recorded call fp) _ _ λ _.
        Holds-bind (Keyed call fp j) (Recorded call fp) (save_key call fp added) _
          (save_key-Keyed call fp j added e (find-first (has_id j.id) j db.jobs (==_refl j.id)))
          λ keyed k.
            Holds-bind (Keyed call fp j) (Recorded call fp) (link_parents j.id parents keyed) _
              (link-Keyed call fp j j.id parents keyed k) λ linked l. (unfold new_job in l)

with_key-Recorded :
    (lib : Libraries) (req : SubmitReq) (call : Call) (d : Draft) (fp : String)
    (o : Option IdempotencyKey) (db : Db)
    → is_empty call.key ≡ false
    → Holds (Recorded call fp) (with_key lib req call d fp o db)
unfolding with_key
with_key-Recorded lib req call d fp none db e = insert_job-Recorded lib req call d fp db e
with_key-Recorded lib req call d fp (some k) db e =
    if_elim (Holds (Recorded call fp)) (leb k.expires_at call.now) _ _
      (insert_job-Recorded lib req call d fp _ e)
      (Holds-then (Recorded call fp) _ _
        λ _. Holds-then (Recorded call fp) _ (λ job. done (existing job, db)) λ _. tt)

abbrev fingerprint_of : Libraries → Draft → String
fingerprint_of lib d = lib.fingerprint d.kind d.payload d.priority d.timeout_ms d.policy d.run_at

submit_draft-Recorded :
    (lib : Libraries) (req : SubmitReq) (call : Call) (d : Draft) (db : Db)
    → is_empty call.key ≡ false
    → Holds (Recorded call (fingerprint_of lib d)) (submit_draft lib req call d db)
unfolding submit_draft
submit_draft-Recorded lib req call d db e =
    rw e (with_key-Recorded lib req call d (fingerprint_of lib d) _ db e)

-- What a key that still lives answers.
with_key-existing :
    (lib : Libraries) (req : SubmitReq) (call : Call) (d : Draft) (fp : String) (k : IdempotencyKey)
    (j : Job) (db : Db)
    → call.now < k.expires_at
    → k.fingerprint ≡ fp
    → find (has_id k.job) db.jobs ≡ some j
    → with_key lib req call d fp (some k) db ≡ done (existing j, db)
unfolding with_key ◌>>=◌
with_key-existing lib req call d fp k j db lives same found =
    let off : leb k.expires_at call.now ≡ false = ground arith in
    let on : str_eq k.fingerprint fp ≡ true =
      subst (λ x. str_eq k.fingerprint x ≡ true) same (eq_refl k.fingerprint) in
    rw (off, on, found) refl

-- A submission with a key that created a job, sent again with the same key and contents before the
-- key's 24 hours are over, comes to that job and changes nothing: whatever its retry finds as the
-- clock, the next id, or the dependencies named. It is the part of submitJob behind the checks of
-- the request, which a queue that has filled up meanwhile can still refuse.
pub resubmission_lem :
    (lib : Libraries) (req again : SubmitReq) (call : Call) (d : Draft) (db db' : Db) (j : Job)
    (later fresh : ℕ) (raced : Bool)
    → is_empty call.key ≡ false
    → submit_draft lib req call d db ≡ done (created j, db')
    → later < call.now + 86400000000
    → submit_draft lib again (record call { now = later; fresh = fresh; raced = raced }) d db'
      ≡ done (existing j, db')
unfolding submit_draft
resubmission_lem lib req again call d db db' j later fresh raced e made soon =
    let kept =
      subst (Holds (Recorded call (fingerprint_of lib d))) made
        (submit_draft-Recorded lib req call d db e) in
    let ((k, found, job, print, life), there) = kept in
    let here = ap (λ x. find (has_id x) db'.jobs) job ∙ there in
    rw (e, found)
      (with_key-existing lib again (record call { now = later; fresh = fresh; raced = raced }) d
        (fingerprint_of lib d) k j db' (omega (arith, life)) print here)
