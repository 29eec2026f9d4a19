-- ===== src/Coordinator/Updates.antt =====
-- internal/coordinator/service.go: handleAssignmentUpdate with the cost record, and the updates of
-- direct invocations.
pub mod Direct
pub mod Budget
pub mod Billing
use lecrev.Prelude.{
  ℕ, ◌+◌, ◌-◌, ◌*◌, ◌/◌, String, Bool, true, false, not, ◌&&◌, ◌||◌, Option, none, some, List, [],
  ◌∷◌, length, ltb, leb, ◌==◌, if◌then◌else◌,
}
use mathlib.Core.List.{◌++◌ as append}
use lecrev.Maps.{get}
use lecrev.Errors.{Result, ok, err, Exec, outcome, pure, ◌>>=◌, ◌>>◌, message}
use lecrev.Domain.{
  Time, Attempt, AttemptState, CostRecord, ExecutionJob, FunctionVersion, JobResult, JobState,
  Project, StartMode,
}
use lecrev.Artifact.{execution_logs_key, execution_output_key}
use lecrev.Store.Backend.{Backend}
use lecrev.Scheduler.Dispatch.{lease}
use lecrev.Coordinator.Service.{AssignmentState, AssignmentUpdate, Waiter}
use lecrev.Coordinator.Capacity.{start_time_or}
use lecrev.Coordinator.Node.{Node, on_shared, set_channel, set_blocked, set_waiter, drop_waiter}

abbrev pub is_terminal : AssignmentState → Bool
is_terminal AssignmentState.succeeded = true
is_terminal AssignmentState.failed = true
is_terminal _ = false

abbrev pub job_result : AssignmentUpdate → Attempt → Time → JobResult
job_result msg a now = record {
  exit_code = msg.exit_code;
  logs = msg.logs;
  logs_key = execution_logs_key msg.job_id msg.attempt_id;
  output = msg.output;
  output_key = execution_output_key msg.job_id msg.attempt_id;
  host_id = msg.host_id;
  region = msg.region;
  started_at = start_time_or now a.started_at;
  finished_at = now;
  latency_ms = 0;
}

-- The switch on the reported state, on the attempt and on the job.
unfoldable pub apply_to_attempt : AssignmentUpdate → Time → AssignmentState → Attempt → Attempt
apply_to_attempt msg now AssignmentState.unspecified a = record a {
  updated_at = now;
  host_id = msg.host_id;
}
apply_to_attempt msg now AssignmentState.starting a = record a {
  updated_at = now;
  host_id = msg.host_id;
  state = AttemptState.starting;
  started_at = start_time_or now a.started_at;
  lease_expires_at = now + lease;
}
apply_to_attempt msg now AssignmentState.running a = record a {
  updated_at = now;
  host_id = msg.host_id;
  state = AttemptState.running;
  started_at = start_time_or now a.started_at;
  lease_expires_at = now + lease;
}
apply_to_attempt msg now AssignmentState.succeeded a = record a {
  updated_at = now;
  host_id = msg.host_id;
  state = AttemptState.succeeded;
  lease_expires_at = now;
}
apply_to_attempt msg now AssignmentState.failed a = record a {
  updated_at = now;
  host_id = msg.host_id;
  state = AttemptState.failed;
  lease_expires_at = now;
  error = msg.error_message;
}

unfoldable pub apply_to_job :
    AssignmentUpdate → Attempt → Time → Bool → AssignmentState → ExecutionJob → ExecutionJob
apply_to_job msg a now has_retryer AssignmentState.unspecified job = record job { updated_at = now }
apply_to_job msg a now has_retryer AssignmentState.starting job = record job {
  state = JobState.assigned;
  updated_at = now;
}
apply_to_job msg a now has_retryer AssignmentState.running job = record job {
  state = JobState.running;
  updated_at = now;
}
apply_to_job msg a now has_retryer AssignmentState.succeeded job = record job {
  state = JobState.succeeded;
  error = "";
  result = some (job_result msg a now);
  updated_at = now;
}
apply_to_job msg a now has_retryer AssignmentState.failed job = record job {
  state =
      if leb job.attempt_count job.max_retries && has_retryer
      then JobState.retrying
      else JobState.failed;
  error = msg.error_message;
  result = some (job_result msg a now);
  updated_at = now;
}

abbrev pub is_retrying : JobState → Bool
is_retrying JobState.retrying = true
is_retrying _ = false

abbrev pub is_failed : AssignmentState → Bool
is_failed AssignmentState.failed = true
is_failed _ = false

-- The billed milliseconds: at least one for a run with both times known, in order.
unfoldable pub runtime_ms : Time → Time → ℕ
runtime_ms started_at finished_at =
    let ms = (finished_at - started_at) / 1000000 in
    if ms == 0 && (not (finished_at == 0) && (not (started_at == 0) && leb started_at finished_at))
    then 1
    else ms

abbrev warm_ms : StartMode → ℕ → ℕ
warm_ms StartMode.blank_warm ms = ms
warm_ms StartMode.function_warm ms = ms
warm_ms _ ms = 0

unfoldable pub cost_record :
    Attempt → ExecutionJob → JobResult → FunctionVersion → Project → Time → CostRecord
unfolding runtime_ms
cost_record a job result version project now =
    let ms = runtime_ms (start_time_or result.finished_at a.started_at) result.finished_at in
    record {
      id = a.id;
      tenant_id = project.tenant_id;
      project_id = project.id;
      job_id = job.id;
      attempt_id = a.id;
      host_id = result.host_id;
      region = result.region;
      start_mode = a.start_mode;
      cpu_ms = ms;
      memory_mb_ms = version.memory_mb * ms;
      warm_instance_ms = warm_ms a.start_mode ms;
      data_egress_bytes = length result.logs + length result.output;
      created_at = now;
    }

-- What a channel holds that an invocation has not read: nothing where there is none.
abbrev pub queued_updates : Option (List AssignmentUpdate) → List AssignmentUpdate
queued_updates none = []
queued_updates (some updates) = updates

module _ {S : Type 0} (db : Backend S) where
  abbrev cost_of : Attempt → ExecutionJob → Time → Option JobResult → Exec (Node S) (Unit {0})
  cost_of a job now none = pure tt
  cost_of a job now (some result) = do
    version ← on_shared (db.get_function_version job.function_version_id)
    project ← on_shared (db.get_project job.project_id)
    on_shared (db.put_cost_record (cost_record a job result version project now))

  unfoldable pub record_cost : Attempt → ExecutionJob → Time → Exec (Node S) (Unit {0})
  unfolding cost_record
  record_cost a job now = cost_of a job now job.result

  abbrev pub cost_if : Bool → Attempt → ExecutionJob → Time → Exec (Node S) (Unit {0})
  cost_if true a job now n = record_cost a job now n
  cost_if false a job now n = (ok tt, n)

  -- The buffer of a direct invocation's channel.
  abbrev pub buffer : ℕ
  buffer = 16

  abbrev forward : AssignmentUpdate → Bool → List AssignmentUpdate → Exec (Node S) (Unit {0})
  forward msg terminal updates n =
      if ltb (length updates) buffer
      then set_channel msg.attempt_id (append updates (msg ∷ [])) n
      else if terminal
      then set_blocked msg.attempt_id
          (append (queued_updates (get n.self.blocked msg.attempt_id)) (msg ∷ [])) n
      else (ok tt, n)

  abbrev end_waiter : String → Bool → Exec (Node S) (Unit {0})
  end_waiter id true n = drop_waiter id n
  end_waiter id false n = (ok tt, n)

  -- A canceled invocation reads nothing more.
  abbrev hand_over : AssignmentUpdate → Bool → Bool → Exec (Node S) (Unit {0})
  hand_over msg terminal true n = (ok tt, n)
  hand_over msg terminal false n =
      forward msg terminal (queued_updates (get n.self.channels msg.attempt_id)) n

  abbrev direct_update : AssignmentUpdate → Option Waiter → Exec (Node S) Bool
  direct_update msg none n = (ok false, n)
  direct_update msg (some waiter) n =
      (do
        end_waiter msg.attempt_id (is_terminal msg.state)
        hand_over msg (is_terminal msg.state) waiter.canceled
        pure true)
        n

  -- handleDirectInvokeUpdate: whether the update belongs to a direct invocation. A terminal update
  -- that finds the channel full waits in a goroutine of its own.
  unfoldable pub handle_direct_invoke_update : AssignmentUpdate → Exec (Node S) Bool
  handle_direct_invoke_update msg n = direct_update msg (get n.self.direct_invokes msg.attempt_id) n

  unfoldable pub cancel_direct_invoke : String → Exec (Node S) (Unit {0})
  cancel_direct_invoke id n = elim (get n.self.direct_invokes id) [
    | none ↦ (ok tt, n)
    | some waiter ↦ set_waiter id (record { canceled = true }) n
  ]

  unfoldable pub remove_direct_invoke : String → Exec (Node S) (Unit {0})
  remove_direct_invoke id = drop_waiter id

  -- The update of a queued execution; the result names the job whose retry it starts in the
  -- background.
  unfoldable pub apply_update : AssignmentUpdate → Time → Exec (Node S) (Option String)
  unfolding apply_to_attempt apply_to_job record_cost
  apply_update msg now n =
      (do
        old ← on_shared (db.get_attempt msg.attempt_id)
        before ← on_shared (db.get_execution_job msg.job_id)
        let a = apply_to_attempt msg now msg.state old
        let job = apply_to_job msg a now n.self.has_retryer msg.state before
        on_shared (db.update_attempt a)
        on_shared (db.update_execution_job job)
        cost_if (is_terminal msg.state) a job now
        pure (if is_failed msg.state && is_retrying job.state then some job.id else none))
        n

  abbrev unless_direct : AssignmentUpdate → Time → Bool → Exec (Node S) (Option String)
  unless_direct msg now true n = (ok none, n)
  unless_direct msg now false n = apply_update msg now n

  unfoldable pub handle_assignment_update : AssignmentUpdate → Time → Exec (Node S) (Option String)
  unfolding handle_direct_invoke_update apply_update
  handle_assignment_update msg now = do
    direct ← handle_direct_invoke_update msg
    unless_direct msg now direct

  abbrev retried : String → Time → Result ExecutionJob → Exec (Node S) (Unit {0})
  retried id now (ok job) = pure tt
  retried id now (err e) = do
    latest ← on_shared (db.get_execution_job id)
    on_shared (
        db.update_execution_job
          (record latest { state = JobState.failed; error = message e; updated_at = now }))

  -- The goroutine that retries a failed job: `retry` is the scheduler's RetryExecution.
  unfoldable pub retry_in_background :
      (String → Exec (Node S) ExecutionJob) → String → Time → Exec (Node S) (Unit {0})
  retry_in_background retry id now = do answer ← outcome (retry id); retried id now answer
