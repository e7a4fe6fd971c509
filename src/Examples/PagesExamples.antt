-- ===== src/Examples/PagesExamples.antt =====
-- The theorems on listings and streams of internal/api, applied.
use job_scheduling.Base.{
  ℕ, ◌+◌, ◌-◌, ◌*◌, ◌≤◌, ◌<◌, true, All, Ascending, ◌≡◌, refl, false, Option, none, some, List, [],
  ◌∷◌, ◌++◌, str_eq, arith, if◌then◌else◌, elem, map, length, select, sort_by,
}
use job_scheduling.Store.{Job, Event, EventPayload, job_queued}
use job_scheduling.Api.Problem.{done, ◌>>=◌}
use job_scheduling.Api.Links.{repeats}
use job_scheduling.Api.Pages.{
  pos, Codec, ListReq, Filter, encode_cursor, decode_cursor, filter_of, newer,
}
use job_scheduling.Api.Pages.Cursors.{IsCodec, decode_cursor-encode_cursor}
use job_scheduling.Api.Pages.Walk.{walk, newest_first, walk_lem}
use job_scheduling.Api.Events.{Logged, by_id, cursor_too_old, Turn, query_finds, pump, stream_batch}
use job_scheduling.Api.Events.Delivery.{
  of_project, pending, events_of, cursor_after, Chained, TurnSees, pump_lem,
}
use job_scheduling.Api.Events.Catchup.{rounds, kept, pump_catches_up}
use job_scheduling.Examples.Data.{database}

abbrev time_in : List ℕ → Option ℕ
time_in [] = none
time_in (x ∷ xs) = some (x - 1000)

abbrev id_in : List ℕ → Option ℕ
id_in [] = none
id_in (x ∷ xs) = some x

abbrev codec : Codec
codec = record {
  encode64 = λ b. b;
  decode64 = λ b. some b;
  format_time = λ t. (t + 1000) ∷ [];
  parse_time = time_in;
  format_id = λ i. i ∷ [];
  parse_id = id_in;
  uuid_of = λ s. if str_eq s "one" then some 1 else none;
  atoi = λ s. if str_eq s "2" then some (pos 2) else none;
}

codec-IsCodec : IsCodec codec
unfolding elem
codec-IsCodec = record {
  decode-encode = λ b. refl;
  decode_empty = refl;
  parse-format_time = λ t. ground arith;
  parse-format_id = λ i. refl;
  time_plain = λ t. ground arith;
}

decode_cursor-encode_cursor_example :
    decode_cursor codec (encode_cursor codec 5 7) ≡ done (some (5, 7))
decode_cursor-encode_cursor_example = decode_cursor-encode_cursor codec 5 7 codec-IsCodec

abbrev all_in_twos : ListReq
all_in_twos = record { status = ""; kind = ""; queue = "one"; limit = "2" }

abbrev of_queue_1 : Filter
of_queue_1 = record { status = none; kind = none; queue = some 1 }

filter_of-all_in_twos : filter_of codec all_in_twos ≡ done of_queue_1
unfolding filter_of ◌>>=◌
filter_of-all_in_twos = refl

ids_distinct : repeats (map (λ (j : Job). j.id) database.jobs) ≡ false
unfolding repeats elem
ids_distinct = refl

few_jobs : length (newest_first 1 of_queue_1 database.jobs) ≡ 3
unfolding select sort_by newer
few_jobs = refl

walk_lem_example : walk codec 1 all_in_twos database 4 [] ≡ newest_first 1 of_queue_1 database.jobs
walk_lem_example =
    walk_lem codec 1 all_in_twos of_queue_1 database 4 codec-IsCodec ids_distinct
      filter_of-all_in_twos (omega (arith, few_jobs))

abbrev queued_event : ℕ → Event
queued_event project = record {
  topic = job_queued;
  entity = 7;
  project = project;
  payload = EventPayload.empty;
}

abbrev logged : ℕ → ℕ → Logged
logged id project = record { id = id; created_at = 0; event = queued_event project }

abbrev old_part : List Logged
old_part = logged 2 1 ∷ logged 4 1 ∷ []

abbrev log : List Logged
log = logged 2 1 ∷ logged 4 1 ∷ logged 5 2 ∷ logged 7 1 ∷ []

abbrev turns : List Turn
turns =
    query_finds (logged 4 1 ∷ []) true
    ∷ query_finds (logged 4 1 ∷ logged 5 2 ∷ logged 7 1 ∷ []) true
    ∷ []

log-Ascending : Ascending by_id (of_project 1 log)
unfolding select
log-Ascending = ((refl, (refl, tt)), ((refl, tt), (tt, tt)))

turns_see : All (TurnSees 3 log) turns
unfolding select
turns_see = ((old_part, logged 5 2 ∷ logged 7 1 ∷ [], refl, refl), ((log, [], refl, refl), tt))

pump_lem_example :
    (3 + 1 < 3 → pump 1 3 3 turns ≡ cursor_too_old 3 3 ∷ [])
    × (3 ≤ 3 + 1
        → let frames = pump 1 3 3 turns in
          (events_of frames ++ pending 1 (cursor_after 3 frames) log ≡ pending 1 3 log)
          × Chained 3 frames)
pump_lem_example = pump_lem 1 3 3 log turns log-Ascending turns_see

two_pending : length (pending 1 3 log) ≤ 1 * stream_batch
unfolding select
two_pending = omega arith

pump_catches_up_example : events_of (pump 1 3 3 (rounds 1 (kept 3 log))) ≡ pending 1 3 log
pump_catches_up_example = pump_catches_up 1 3 3 1 log log-Ascending (omega arith) two_pending
