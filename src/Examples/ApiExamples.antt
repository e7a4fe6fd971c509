-- ===== src/Examples/ApiExamples.antt =====
-- The theorems on internal/api, applied.
use job_scheduling.Base.{
  Option, String, str_eq, ℕ, zero, suc, ◌+◌, ◌-◌, ◌<◌, ◌≡◌, refl, true, false, none, some, List, [],
  ◌∷◌, arith, find, exists, select, if◌then◌else◌, to_ℕ, ◌==◌, elem, count,
}
use job_scheduling.Store.{
  Job, Db, Dependency, EventPayload, job_submitted, queued, check_violation, is_terminal, is_active,
  deadlock_detected,
}
use job_scheduling.Jobs.Slots.{queue_release}
use job_scheduling.Jobs.Claim.{has_id}
use job_scheduling.Api.Problem.{
  ApiReply, done, refused, not_found, conflict, database as failing, ◌>>=◌,
}
use job_scheduling.Api.Cancel.{ended_detail, cancel_job, cancelled_row}
use job_scheduling.Api.Cancelling.{cancel_job_lem}
use job_scheduling.Api.Links.{has_cycle, parents_of, parent_ids, pending_parents}
use job_scheduling.Api.Cycles.{has_cycle_lem}
use job_scheduling.Api.Submit.{
  is_empty, Libraries, SubmitReq, Call, Draft, new_job, submit_draft, existing, created, insert_job,
  with_key, save_key, link_parents,
}
use job_scheduling.Api.Resubmission.{resubmission_lem}
use job_scheduling.Api.Transaction.{Turn, tx}
use job_scheduling.Api.Committing.{AreHonest, OnceOrNever, tx_lem}
use job_scheduling.Api.Access.{
  member, Accounts, Credentials, Scope, Entity, a_queue, Locator, by_path, locate, Audit, bearer,
  is_live_session, authuser, is_member, parse_role, scope_of, scope_found, scope_by, project_of,
  guard,
}
use job_scheduling.Api.Guarded.{IsAllowed, audit_of, guard_lem}
use job_scheduling.Api.Stream.{
  Hub, IsTidy, subscribe, release, count_of, distinct, streams_stay_bounded,
}
use job_scheduling.System.Life.{well_formed}
use job_scheduling.Examples.Data.{database, running_job}

cancel_job_lem_example :
    (find (has_id 8) database.jobs ≡ none
      → cancel_job 60 8 database ≡ (refused (not_found "job"), database))
    × ((j : Job)
        → find (has_id 8) database.jobs ≡ some j
        → is_terminal j.status ≡ true
        → cancel_job 60 8 database ≡ (refused (conflict (ended_detail j.status)), database))
    × ((j : Job)
        → find (has_id 8) database.jobs ≡ some j
        → is_terminal j.status ≡ false
        → well_formed j ≡ true
        → 0 < j.pending_deps
        → cancel_job 60 8 database ≡ (refused (failing check_violation), database))
    × ((j : Job)
        → find (has_id 8) database.jobs ≡ some j
        → is_terminal j.status ≡ false
        → well_formed j ≡ true
        → j.pending_deps ≡ 0
        → let (answer, db') = cancel_job 60 8 database in
          (answer ≡ done j.status)
          × (find (has_id 8) db'.jobs ≡ some (cancelled_row 60 j))
          × (db'.shards ≡ (
              if is_active j.status
              then queue_release j.queue j.shard 1 database.shards
              else database.shards)))
cancel_job_lem_example = cancel_job_lem 60 8 database

-- 1 before 2 before 3, and 3 before 1 again: a cycle through 1.
abbrev round_trip : List Dependency
round_trip =
    record { parent = 1; child = 2 }
    ∷ record { parent = 2; child = 3 }
    ∷ record { parent = 3; child = 1 }
    ∷ []

not_own_parent : exists (λ d. d.parent == 1) (parents_of 1 round_trip) ≡ false
unfolding exists select
not_own_parent = refl

has_cycle_lem_example : has_cycle 1 round_trip ≡ false
has_cycle_lem_example = has_cycle_lem 1 round_trip not_own_parent

abbrev libraries : Libraries
libraries = record {
  trim = λ s. s;
  json_valid = λ s. true;
  parse_uuid = λ s. none;
  fingerprint = λ kind payload priority timeout policy run_at. payload;
}

abbrev body : SubmitReq
body = record {
  kind = "mail";
  payload = "{}";
  priority = none;
  run_at = none;
  timeout_ms = none;
  retry_policy = none;
  depends_on = [];
}

abbrev call : Call
call = record { queue = 1; project = 1; key = "k"; now = 60; fresh = 50; raced = false }

abbrev decoded : Draft
decoded = record {
  kind = "mail";
  payload = "{}";
  priority = 5;
  timeout_ms = 1000;
  policy = 3;
  run_at = none;
}

abbrev submitted : Job
submitted = new_job decoded call 0

abbrev submitted_db : Db
submitted_db = record database {
  jobs = submitted ∷ database.jobs;
  idempotency_keys =
      record { queue = 1; key = "k"; job = 50; fingerprint = "{}"; expires_at = 86400000060 } ∷ [];
  events =
      record {
        topic = job_submitted;
        entity = 50;
        project = 1;
        payload = EventPayload.status_is queued;
      }
      ∷ [];
}

made : submit_draft libraries body call decoded database ≡ done (created submitted, submitted_db)
unfolding submit_draft with_key insert_job save_key link_parents parent_ids pending_parents count
    find ◌>>=◌ new_job elem
made = refl

resubmission_lem_example :
    submit_draft libraries body
      (record call { now = 99; fresh = 51; raced = false })
      decoded
      submitted_db
    ≡ done (existing submitted, submitted_db)
resubmission_lem_example =
    resubmission_lem libraries body body call decoded database submitted_db submitted 99 51 false
      refl made (omega arith)

-- The first commit meets a deadlock, and the jobs are gone before the second turn.
abbrev turns : ℕ → Turn
turns zero = record {
  meddles = λ d. d;
  begin_fails = none;
  commit_fails = some deadlock_detected;
  commit_took = false;
}
turns (suc i) = record {
  meddles = λ d. record d { jobs = [] };
  begin_fails = none;
  commit_fails = none;
  commit_took = false;
}

turns-AreHonest : AreHonest turns
turns-AreHonest zero e f h = refl
turns-AreHonest (suc i) e f h = refl

abbrev handler : ℕ → Db → ApiReply (ℕ × Db)
handler i db = done (i, record db { jobs = running_job ∷ db.jobs })

tx_lem_example : OnceOrNever turns handler database (tx turns handler database)
tx_lem_example = tx_lem turns handler database turns-AreHonest

abbrev hub : Hub
hub = record {
  streams = record { user = 1; open_streams = 4 } ∷ record { user = 2; open_streams = 1 } ∷ [];
  wakers = 10 ∷ 11 ∷ 12 ∷ 13 ∷ 14 ∷ [];
  listening = true;
}

hub-IsTidy : IsTidy hub
unfolding distinct count_of exists
hub-IsTidy = (refl, λ u. ground arith, refl)

streams_stay_bounded_example :
    let (answer, hub') = subscribe 2 15 hub in
    IsTidy hub'
    × IsTidy (release 2 15 hub)
    × (count_of 2 hub.streams ≡ 4 → hub' ≡ hub)
    × (answer ≡ done 15
        → (v : ℕ) → count_of v hub'.streams ≡ count_of v hub.streams + to_ℕ (2 == v))
    × ((v : ℕ) → count_of v (release 2 15 hub).streams ≡ count_of v hub.streams - to_ℕ (2 == v))
streams_stay_bounded_example = streams_stay_bounded 2 15 hub hub-IsTidy

abbrev token_id : String → Option ℕ
token_id t = if str_eq t "five" then some 5 else if str_eq t "one" then some 1 else none

abbrev accounts : Accounts
accounts = record {
  sessions = record { id = 5; user = 3; revoked_at = none; expires_at = 100 } ∷ [];
  projects = record { id = 1; org = 9 } ∷ [];
  members = record { org = 9; user = 3; role = "admin" } ∷ [];
}

abbrev credentials : Credentials
credentials = record { authorization = some "five"; cookie = none; protocols = [] }

abbrev pause : Scope → ApiReply (ℕ × Option ℕ)
pause sc = done (sc.entity, none)

abbrev pause_audit : List Audit
pause_audit = audit_of 1 3 "queue.pause" "queue" 1 none ∷ []

abbrev at_queue : Locator
at_queue = by_path "invalid id" a_queue "one"

paused :
    guard token_id 50 accounts database credentials member "queue.pause" at_queue "queue" pause
    ≡ done (1, pause_audit)
unfolding guard authuser bearer is_live_session scope_by scope_found scope_of is_member parse_role
    project_of locate ◌>>=◌ find
paused = refl

guard_lem_example :
    (sc : Scope) × (named : Option ℕ) × (kind : Entity) × (id : ℕ) × (locate token_id at_queue
      ≡ done (kind, id))
    × IsAllowed token_id 50 accounts database credentials member kind id sc
    × (pause sc ≡ done (1, named))
    × (pause_audit ≡ (
        if is_empty "queue.pause"
        then []
        else audit_of sc.project sc.user "queue.pause" "queue" sc.entity named ∷ []))
guard_lem_example =
    guard_lem token_id 50 accounts database credentials member "queue.pause" at_queue "queue" pause
      1 pause_audit paused
