-- ===== src/System/Submission.antt =====
-- What submitJob and submitBatch do to the table of jobs.
use job_scheduling.Base.{
  ap, ◌++◌, All, ℕ, leb, ◌≡◌, refl, true, false, Option, none, some, List, [], ◌∷◌, String, arith,
  inl, inr, ◌⊎◌, ◌∙◌, if_elim,
}
use job_scheduling.Store.{Job, Db, IdempotencyKey, is_active, row_check}
use job_scheduling.Api.Problem.{ApiReply, done, refused, ◌>>=◌}
use job_scheduling.Api.Links.{link, parent_ids, pending_parents}
use job_scheduling.Api.Submit.{
  SubmitReq, Libraries, Call, Draft, new_job, save_key, link_parents, Submitted, existing,
  insert_job, with_key, submit_draft, submit_job, draft, is_empty,
}
use job_scheduling.Api.Bulk.{BatchView, submit_batch}
use job_scheduling.Api.Bulk.Starting.{IsOfBatch}
use job_scheduling.Api.Bulk.Submitting.{submit_batch-IsSubmitted}
use job_scheduling.System.Life.{well_formed}

-- Of a reply: what holds of it if it is no refusal.
abbrev pub Holds {ℓ κ} : {A : Type ℓ} → (A → Type κ) → ApiReply A → Type κ
Holds P (done a) = P a
Holds P (refused e) = Unit

pub Holds-bind {ℓ κ μ ν} :
    {A : Type ℓ} {B : Type κ} (Q : A → Type μ) (P : B → Type ν) (m : ApiReply A)
    (k : A → ApiReply B)
    → Holds Q m
    → ((a : A) → Q a → Holds P (k a))
    → Holds P (m >>= k)
unfolding ◌>>=◌
Holds-bind Q P (done a) k q h = h a q
Holds-bind Q P (refused e) k q h = tt

pub Holds-then {ℓ κ ν} :
    {A : Type ℓ} {B : Type κ} (P : B → Type ν) (m : ApiReply A) (k : A → ApiReply B)
    → ((a : A) → Holds P (k a))
    → Holds P (m >>= k)
unfolding ◌>>=◌
Holds-then P (done a) k h = h a
Holds-then P (refused e) k h = tt

-- The rows of jobs and the counters are those of `db`.
abbrev pub KeepsJobs : Db → Db → Type 0
KeepsJobs db db' = (db'.jobs ≡ db.jobs) × (db'.shards ≡ db.shards)

-- One well-formed job that holds no slot is new.
abbrev pub AddsJob : Db → Db → Type 0
AddsJob db db' =
    (j : Job) × (well_formed j ≡ true)
    × (is_active j.status ≡ false)
    × (db'.jobs ≡ j ∷ db.jobs)
    × (db'.shards ≡ db.shards)

link-KeepsJobs :
    (child : ℕ) (parents : List ℕ) (db : Db) → Holds (KeepsJobs db) (link_parents child parents db)
unfolding link_parents link
link-KeepsJobs child [] db = (refl, refl)
link-KeepsJobs child (p ∷ ps) db = Holds-then (KeepsJobs db) _ _ λ _.
    Holds-then (KeepsJobs db) _ _ λ _. Holds-then (KeepsJobs db) _ _ λ _.
      Holds-then (KeepsJobs db) _ (λ _. done (record db { dependencies = _ })) λ _. (refl, refl)

save_key-KeepsJobs :
    (call : Call) (fp : String) (db : Db) → Holds (KeepsJobs db) (save_key call fp db)
unfolding save_key
save_key-KeepsJobs call fp db =
    if_elim (Holds (KeepsJobs db)) (is_empty call.key) _ _ (refl, refl)
      (if_elim (Holds (KeepsJobs db)) call.raced _ _ tt (refl, refl))

new_job-well_formed : (d : Draft) (call : Call) (n : ℕ) → well_formed (new_job d call n) ≡ true
unfolding well_formed row_check new_job
new_job-well_formed d call n = ground arith

new_job-idle : (d : Draft) (call : Call) (n : ℕ) → is_active (new_job d call n).status ≡ false
unfolding new_job
new_job-idle d call n = ground arith

abbrev pub Inserts : Db → Submitted × Db → Type 0
Inserts db (s, db') = KeepsJobs db db' ⊎ AddsJob db db'

insert_job-Inserts :
    (lib : Libraries) (req : SubmitReq) (call : Call) (d : Draft) (fp : String) (db : Db)
    → Holds (Inserts db) (insert_job lib req call d fp db)
unfolding insert_job
insert_job-Inserts lib req call d fp db =
    Holds-then (Inserts db) (parent_ids lib.parse_uuid req.depends_on) _ λ parents.
      let j = new_job d call (pending_parents parents call.project db.jobs) in
      let added = record db { jobs = j ∷ db.jobs } in
      Holds-then (Inserts db) _ _ λ _.
        Holds-bind (KeepsJobs added) (Inserts db) (save_key call fp added) _
          (save_key-KeepsJobs call fp added)
          λ keyed k.
            Holds-bind (KeepsJobs keyed) (Inserts db) (link_parents j.id parents keyed) _
              (link-KeepsJobs j.id parents keyed)
              λ linked l.
                inr (j, new_job-well_formed d call _, new_job-idle d call _, l.0 ∙ k.0, l.1 ∙ k.1)

with_key-Inserts :
    (lib : Libraries) (req : SubmitReq) (call : Call) (d : Draft) (fp : String)
    (o : Option IdempotencyKey) (db : Db)
    → Holds (Inserts db) (with_key lib req call d fp o db)
unfolding with_key
with_key-Inserts lib req call d fp none db = insert_job-Inserts lib req call d fp db
with_key-Inserts lib req call d fp (some k) db =
    if_elim (Holds (Inserts db)) (leb k.expires_at call.now) _ _
      (insert_job-Inserts lib req call d fp _)
      (Holds-then (Inserts db) _ _
        λ _. Holds-then (Inserts db) _ (λ job. done (existing job, db)) λ _. inl (refl, refl))

-- A submission that succeeds adds one well-formed job that holds no slot, or none.
pub submit_job-Inserts :
    (lib : Libraries) (req : SubmitReq) (call : Call) (db : Db)
    → Holds (Inserts db) (submit_job lib req call db)
unfolding submit_job submit_draft
submit_job-Inserts lib req call db = Holds-then (Inserts db) (draft lib req call db) _ λ d.
    if_elim (Holds (Inserts db)) (is_empty call.key) _ _ (insert_job-Inserts lib req call d "" db)
      (with_key-Inserts lib req call d _ _ db)

-- A row that may be added: well formed, and holding no slot.
abbrev pub IsNew : Job → Type 0
IsNew j = (well_formed j ≡ true) × (is_active j.status ≡ false)

abbrev pub AddsJobs : Db → Db → Type 0
AddsJobs db db' =
    (rows : List Job) × All IsNew rows × (db'.jobs ≡ rows ++ db.jobs) × (db'.shards ≡ db.shards)

IsNew-rows :
    (call : Call) (batch policy : ℕ) (rows : List Job)
    → All (IsOfBatch call batch policy) rows
    → All IsNew rows
IsNew-rows call batch policy [] a = tt
IsNew-rows call batch policy (j ∷ rows) (h, a) = ((h.8, h.6), IsNew-rows call batch policy rows a)

pub submit_batch-AddsJobs :
    (lib : Libraries) (fresh : ℕ → ℕ) (batch : ℕ) (reqs : List SubmitReq) (call : Call)
    (view : BatchView) (seen db db' : Db)
    → submit_batch lib fresh batch reqs call seen db ≡ done (view, db')
    → AddsJobs db db'
submit_batch-AddsJobs lib fresh batch reqs call view seen db db' h =
    let (qr, rows, found, at_least, at_most, (len, a, result, after), within) =
      submit_batch-IsSubmitted lib fresh batch reqs call seen db view db' h in
    (
      rows,
      IsNew-rows call batch qr.policy rows a,
      ap (λ (d : Db). d.jobs) after,
      ap (λ (d : Db). d.shards) after,
    )
