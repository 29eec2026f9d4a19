-- ===== src/Domain/States.antt =====
-- internal/domain/types.go, controlplane.go: the string enumerations.
use lecrev.Prelude.{ℕ, ◌==◌, ◌≡◌, Bool, true, false, ◌||◌, List, [], ◌∷◌, arith}

pub data SourceType : Type 0 where
  bundle git : SourceType

pub data NetworkPolicy : Type 0 where
  no_network allowlist full : NetworkPolicy

pub data FunctionState : Type 0 where
  building ready failed : FunctionState

pub data JobState : Type 0 where
  queued scheduling assigned running retrying succeeded failed : JobState

pub data AttemptState : Type 0 where
  assigned starting running succeeded failed : AttemptState

pub data StartMode : Type 0 where
  unset cold blank_warm function_warm : StartMode

pub data HostState : Type 0 where
  active draining down : HostState

pub data IdempotencyStatus : Type 0 where
  pending completed : IdempotencyStatus

pub data HttpTriggerAuthMode : Type 0 where
  no_auth api_key : HttpTriggerAuthMode

-- func (a AttemptState) Terminal() bool.
abbrev pub terminal : AttemptState → Bool
terminal AttemptState.succeeded = true
terminal AttemptState.failed = true
terminal _ = false

-- Go's == on job states, through the position in the list of constants.
abbrev pub job_state_code : JobState → ℕ
job_state_code JobState.queued = 0
job_state_code JobState.scheduling = 1
job_state_code JobState.assigned = 2
job_state_code JobState.running = 3
job_state_code JobState.retrying = 4
job_state_code JobState.succeeded = 5
job_state_code JobState.failed = 6

abbrev pub job_state_eq : JobState → JobState → Bool
job_state_eq a b = job_state_code a == job_state_code b

pub job_state_eq→eq : (a b : JobState) → job_state_eq a b ≡ true → a ≡ b
job_state_eq→eq a b h = ground arith

-- The `allowed` sets that the store builds from a list of states.
abbrev pub allows : List JobState → JobState → Bool
allows [] s = false
allows (x ∷ xs) s = job_state_eq x s || allows xs s

-- A job that still counts against a project's quota and a region's backlog.
abbrev pub job_finished : JobState → Bool
job_finished JobState.succeeded = true
job_finished JobState.failed = true
job_finished _ = false

abbrev pub host_is_active : HostState → Bool
host_is_active HostState.active = true
host_is_active _ = false

abbrev pub wants_full_network : NetworkPolicy → Bool
wants_full_network NetworkPolicy.full = true
wants_full_network _ = false

abbrev pub is_ready : FunctionState → Bool
is_ready FunctionState.ready = true
is_ready _ = false
