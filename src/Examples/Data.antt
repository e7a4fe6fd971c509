-- ===== src/Examples/Data.antt =====
-- Rows for the examples: a queue with one shard, one job in each of some states, a policy.
use job_scheduling.Base.{none, some, true, false, [], ◌∷◌}
use job_scheduling.Store.{
  Job, Policy, Queue, Shard, Execution, Lease, Db, Schedule, allow, Catchup, queued, running,
  completed, exponential, closed,
}
use job_scheduling.Jobs.Claim.{ClaimRequest, Claimed}

abbrev pub waiting_job : Job
waiting_job = record {
  id = 7;
  project = 1;
  queue = 1;
  shard = 0;
  schedule = none;
  scheduled_for = none;
  batch = none;
  kind = "mail";
  payload = "{}";
  status = queued;
  priority = 5;
  run_at = 10;
  fence = 2;
  attempt_count = 1;
  replay_generation = 0;
  snooze_count = 0;
  worker = none;
  deadline_at = none;
  timeout_ms = 1000;
  policy = 3;
  pending_deps = 0;
  created_at = 5;
  claimed_at = none;
  started_at = none;
  finished_at = none;
}

abbrev pub running_job : Job
running_job = record waiting_job {
  id = 8;
  status = running;
  fence = 4;
  worker = some 9;
  claimed_at = some 11;
  started_at = some 12;
  deadline_at = some 1000012;
}

abbrev pub finished_job : Job
finished_job = record waiting_job { id = 6; status = completed; finished_at = some 20 }

abbrev pub policy : Policy
policy = record {
  id = 3;
  project = 1;
  name = "standard";
  kind = exponential;
  max_attempts = 3;
  max_lost_attempts = 3;
  base_delay_ms = 100;
  max_delay_ms = 1000;
  jitter = false;
}

abbrev pub queue : Queue
queue = record {
  id = 1;
  project = 1;
  name = "email";
  paused = false;
  shards = 1;
  max_concurrency = 2;
  max_depth = none;
  policy = 3;
  default_priority = 5;
  rl_limit_per_sec = 0;
  rl_burst = 0;
  breaker_state = closed;
  breaker_open_until = none;
  breaker_probe_budget = 0;
}

abbrev pub shard : Shard
shard = record { queue = 1; shard = 0; in_flight = 1; rl_tokens = 0; rl_refilled_at = 0 }

abbrev pub execution : Execution
execution = record {
  id = 30;
  job = 8;
  queue = 1;
  attempt = 1;
  replay_generation = 0;
  fence = 4;
  worker = 9;
  outcome = none;
  error_class = none;
  error_message = none;
  started_at = 12;
  finished_at = none;
}

abbrev pub lease : Lease
lease = record {
  job = 8;
  fence = 4;
  worker = 9;
  expires_at = 100;
  progress = none;
  updated_at = 12;
}

abbrev pub schedule : Schedule
schedule = record {
  id = 40;
  queue = 1;
  name = "nightly";
  cron_expr = "* * * * *";
  timezone = "UTC";
  job_type = "mail";
  payload = "{}";
  enabled = true;
  overlap_policy = allow;
  catchup_policy = Catchup.skip;
  next_run_at = 50;
  last_fired_for = none;
}

abbrev pub database : Db
database = record {
  jobs = waiting_job ∷ running_job ∷ finished_job ∷ [];
  executions = execution ∷ [];
  leases = lease ∷ [];
  policies = policy ∷ [];
  queues = queue ∷ [];
  shards = shard ∷ [];
  schedules = schedule ∷ [];
  dependencies = [];
  dead_letters = [];
  stats = [];
  events = [];
  violations = [];
  idempotency_keys = [];
}

abbrev pub request : ClaimRequest
request = record { queue = 1; worker = 9; free_slots = 4; lease = 30000000; types = none }

abbrev pub handed_job : Claimed
handed_job = record {
  id = 8;
  fence = 4;
  kind = "mail";
  payload = "{}";
  attempt_count = 1;
  deadline_at = none;
}
