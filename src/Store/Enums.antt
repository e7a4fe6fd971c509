-- ===== src/Store/Enums.antt =====
-- The enums of migrations/001_types.sql, and the state machine of 016_fsm_inline.sql.
use job_scheduling.Base.{Bool, true, false}

pub data Status : Type 0 where
  scheduled queued claimed running completed retry_wait dead_letter cancelled : Status

pub data Outcome : Type 0 where
  success retryable_error permanent_error timeout lost fenced cancelled snoozed : Outcome

pub data BackoffKind : Type 0 where
  fixed linear exponential : BackoffKind

pub data BreakerState : Type 0 where
  closed opened half_open : BreakerState  -- `open` is spelled opened

-- `status in ('claimed', 'running')`.
abbrev pub is_active : Status → Bool
is_active claimed = true
is_active running = true
is_active _ = false

abbrev pub is_claimed : Status → Bool
is_claimed claimed = true
is_claimed _ = false

abbrev pub is_running : Status → Bool
is_running running = true
is_running _ = false

abbrev pub is_queued : Status → Bool
is_queued queued = true
is_queued _ = false

abbrev pub is_scheduled : Status → Bool
is_scheduled scheduled = true
is_scheduled _ = false

-- `status in ('completed', 'dead_letter', 'cancelled')`.
abbrev pub is_terminal : Status → Bool
is_terminal completed = true
is_terminal dead_letter = true
is_terminal cancelled = true
is_terminal _ = false

-- `status in ('scheduled', 'queued', 'retry_wait')`.
abbrev pub is_idle : Status → Bool
is_idle scheduled = true
is_idle queued = true
is_idle retry_wait = true
is_idle _ = false

-- `status in ('scheduled', 'retry_wait')`.
abbrev pub is_waiting : Status → Bool
is_waiting scheduled = true
is_waiting retry_wait = true
is_waiting _ = false

abbrev pub is_dead : Status → Bool
is_dead dead_letter = true
is_dead _ = false

-- fl.legal_transition.
unfoldable pub legal_transition : Status → Status → Bool
legal_transition scheduled queued = true
legal_transition scheduled cancelled = true
legal_transition queued claimed = true
legal_transition queued cancelled = true
legal_transition claimed running = true
legal_transition claimed queued = true
legal_transition claimed retry_wait = true
legal_transition claimed cancelled = true
legal_transition claimed dead_letter = true
legal_transition running completed = true
legal_transition running retry_wait = true
legal_transition running dead_letter = true
legal_transition running cancelled = true
legal_transition running queued = true
legal_transition running scheduled = true
legal_transition retry_wait queued = true
legal_transition retry_wait cancelled = true
legal_transition retry_wait dead_letter = true
legal_transition dead_letter queued = true
legal_transition _ _ = false

abbrev pub same_status : Status → Status → Bool
same_status scheduled scheduled = true
same_status queued queued = true
same_status claimed claimed = true
same_status running running = true
same_status completed completed = true
same_status retry_wait retry_wait = true
same_status dead_letter dead_letter = true
same_status cancelled cancelled = true
same_status _ _ = false
