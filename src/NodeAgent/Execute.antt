-- ===== src/NodeAgent/Execute.antt =====
-- internal/nodeagent/service.go: executeAssignment, from the slots it takes to the warming behind it.
-- The goroutines it starts run where they are started: the ones that archive before the last
-- update is sent, the one that warms at the end.
pub mod Lifecycle
use Prim.Native.String.{◌++◌}
use lecrev.Prelude.{
  ℕ, String, Bool, true, false, List, [], ◌∷◌, Option, none, some, if◌then◌else◌, str_eq,
}
use lecrev.Prelude.Int.{ℤ, pos}
use lecrev.Prelude.Text.{trim_space}
use lecrev.Prelude.Utf8.{utf8}
use lecrev.Maps.{Assoc, put}
use lecrev.Errors.{Error, Result, Exec, ok, err, message}
use lecrev.Domain.{Bytes}
use lecrev.Coordinator.{AssignmentUpdate, AssignmentState}
use lecrev.NodeAgent.State.{
  Service, Node, Agent, ExecutionAssignment, ExecuteRequest, ExecuteResult, Outcome, Sent, update,
}
use lecrev.NodeAgent.Slots.{reserve_assignment_slots, release_assignment_slots}
use lecrev.NodeAgent.Trace.{Recorder, new_recorder, add, text_of, combine}
use lecrev.NodeAgent.Limits.{
  Limited, enforce_execution_result_limits, combine_error_messages, terminal_exit_code,
}
use lecrev.NodeAgent.Bundles.{load_bundle, archive_execution_artifacts}
use lecrev.NodeAgent.Messages.{send_heartbeat}

starts_with : String → String → Bool
starts_with String.[] text = true
starts_with (String.◌∷◌ c s) String.[] = false
starts_with (String.◌∷◌ c s) (String.◌∷◌ d t) =
    if str_eq (String.◌∷◌ c String.[]) (String.◌∷◌ d String.[]) then starts_with s t else false

unfoldable pub is_direct_stream_attempt : String → Bool
unfolding starts_with
is_direct_stream_attempt attempt_id = starts_with "direct-attempt-" (trim_space attempt_id)

-- What is reported while the driver runs: a tick of the running heartbeats, or an event of the
-- function's HTTP stream, encoded.
pub data Report : Type 0 where
  tick : Report
  event : Bytes → Report

-- What one run meets: the milliseconds of its k-th step, the reports in their order, and whether
-- the heartbeats tick once more while they are being stopped.
pub record Course : Type 0 where
  pub elapsed : ℕ → ℕ
  pub reports : List Report
  pub late_tick : Bool

abbrev put_all : Assoc String → Assoc String → Assoc String
put_all env [] = env
put_all env ((key, value) ∷ more) = put_all (put env key value) more

-- The secrets written into the clone of the variables. The clone of an empty map is nil, and the
-- assignment to an entry of it panics.
abbrev pub with_secrets : Assoc String → Assoc String → Option (Assoc String)
with_secrets [] [] = some []
with_secrets [] (secret ∷ more) = none
with_secrets (var ∷ env) secrets = some (put_all (var ∷ env) secrets)

module _ {S : Type 0} (svc : Service S) (msg : ExecutionAssignment) where
  unfoldable pub emit_update : AssignmentState → Bytes → Bytes → String → ℤ → Node S → Node S
  emit_update state logs output error_message exit_code node = record node {
    sent =
        update (record {
          attempt_id = msg.attempt_id;
          job_id = msg.job_id;
          host_id = svc.host_id;
          region = svc.region;
          state = state;
          exit_code = exit_code;
          logs = logs;
          output = output;
          error_message = error_message;
        })
        ∷ node.sent;
  }

  abbrev emit_running : Bytes → Node S → Node S
  emit_running output node = emit_update AssignmentState.running [] output "" (pos 0) node

  abbrev emit_early_failure : Recorder → String → Node S → Node S
  emit_early_failure trace text node =
      emit_update AssignmentState.failed (utf8 (text_of trace)) [] text (pos 1) node

  unfoldable pub release : Node S → Node S
  release node = record node { agent = release_assignment_slots msg.network_policy node.agent }

  abbrev report : Bool → Report → Node S → Node S
  report streaming tick node = emit_running [] node
  report false (event bytes) node = node
  report true (event bytes) node = emit_running bytes node

  unfoldable pub report_all : Bool → List Report → Node S → Node S
  unfolding emit_update
  report_all streaming [] node = node
  report_all streaming (r ∷ reports) node = report_all streaming reports (report streaming r node)

  abbrev late : Bool → Node S → Node S
  late false node = node
  late true node = emit_running [] node

  -- A driver that warms after executions is asked to; its error is only logged. The inventory of
  -- any other counts the version.
  abbrev warm : Option (ExecuteRequest → Exec S (Unit {0})) → ExecuteRequest → Node S → Node S
  warm (some prepare) req node = record node { world = (prepare req node.world).1 }
  warm none req node = record node {
    agent = record node.agent {
      function_warm = put node.agent.function_warm msg.function_version_id 1;
    };
  }

  unfoldable pub prepare_warm_async : ExecuteRequest → Node S → Node S
  unfolding send_heartbeat
  prepare_warm_async req node = send_heartbeat svc (warm svc.driver.prepare_function_warm req node)

  unfoldable pub archive_async : Limited → Node S → Node S
  unfolding archive_execution_artifacts
  archive_async limited node = record node {
    world =
        (archive_execution_artifacts svc msg.job_id msg.attempt_id limited.logs limited.output
          node.world).1;
  }

  abbrev finish : Outcome S → Node S → Node S
  finish outcome node =
      send_heartbeat svc (release (record node { world = outcome.clean node.world }))

  abbrev fail : Course → Outcome S → Limited → ℤ → String → Node S → Node S
  fail course outcome limited exit_code text node = finish outcome (
      late course.late_tick (
        emit_update AssignmentState.failed limited.logs limited.output text
          (terminal_exit_code exit_code) (archive_async limited node)))

  abbrev succeed : Course → ExecuteRequest → Outcome S → Limited → ℤ → Node S → Node S
  succeed course req outcome limited exit_code node = prepare_warm_async req (
      finish outcome (
        late course.late_tick (
          emit_update AssignmentState.succeeded limited.logs limited.output "" exit_code
            (archive_async limited node))))

  abbrev settle :
      Course
      → ExecuteRequest
      → Outcome S
      → ℤ
      → Limited
      → Option Error
      → Option Error
      → Node S
      → Node S
  settle course req outcome exit_code limited (some e) limit node =
      fail course outcome limited exit_code (combine_error_messages (some e) limit) node
  settle course req outcome exit_code limited none (some limit) node =
      fail course outcome limited exit_code (message limit) node
  settle course req outcome exit_code limited none none node =
      succeed course req outcome limited exit_code node

  abbrev limited_logs : Recorder → Option ExecuteResult → Limited
  limited_logs trace none = enforce_execution_result_limits (text_of trace) []
  limited_logs trace (some result) =
      enforce_execution_result_limits
        (combine (text_of trace) (combine result.platform_trace result.logs)) result.output

  abbrev exit_code_of : Option ExecuteResult → ℤ
  exit_code_of none = pos 1
  exit_code_of (some result) = result.exit_code

  abbrev returned : Course → Recorder → ExecuteRequest → Outcome S → Node S → Node S
  returned course trace req outcome node =
      let limited =
        limited_logs (add "driver_execute" (course.elapsed 2) [] trace) outcome.result in
      settle course req outcome (exit_code_of outcome.result) limited outcome.error limited.error
        node

  -- The reports go out while the driver runs, and so before it returns.
  unfoldable pub run : Course → Recorder → ExecuteRequest → Node S → Node S
  unfolding report_all prepare_warm_async archive_async release emit_update send_heartbeat
  run course trace req node =
      let (outcome, world) = svc.driver.execute req node.world in
      returned course trace req outcome (
        report_all req.enable_streaming course.reports
          (emit_running [] (record node { world = world })))

  abbrev request_of : Bytes → Assoc String → ExecuteRequest
  request_of bundle env = record {
    attempt_id = msg.attempt_id;
    job_id = msg.job_id;
    function_id = msg.function_version_id;
    entrypoint = msg.entrypoint;
    artifact_bundle = bundle;
    payload = msg.payload;
    env = env;
    timeout_sec = msg.timeout_sec;
    memory_mb = msg.memory_mb;
    network_policy = msg.network_policy;
    region = svc.region;
    host_id = svc.host_id;
    enable_streaming = is_direct_stream_attempt msg.attempt_id;
  }

  -- The deferred release still runs.
  abbrev panic : Node S → Node S
  panic node = record (release node) { panicked = true }

  abbrev merged : Course → Recorder → Bytes → Option (Assoc String) → Node S → Node S
  merged course trace bundle none node = panic node
  merged course trace bundle (some env) node = run course trace (request_of bundle env) node

  abbrev resolved : Course → Recorder → Bytes → Result (Assoc String) → Node S → Node S
  resolved course trace bundle (err e) node = release (emit_early_failure trace (message e) node)
  resolved course trace bundle (ok secrets) node =
      merged course trace bundle (with_secrets msg.env_vars secrets) node

  abbrev resolve : Course → Recorder → Bytes → Node S → Node S
  resolve course trace bundle node =
      let (secrets, world) =
        svc.resolve_execution svc.host_id svc.region msg.function_version_id msg.env_refs
          node.world in
      resolved course (add "resolve_secrets" (course.elapsed 1) [] trace) bundle secrets
        (record node { world = world })

  abbrev loaded : Course → Recorder → Result Bytes × Node S → Node S
  loaded course trace (err e, node) = release (emit_early_failure trace (message e) node)
  loaded course trace (ok bundle, node) = resolve course trace bundle node

  abbrev admitted : Course → Node S → Node S
  admitted course node =
      let key = trim_space msg.artifact_bundle_key in
      if str_eq key ""
      then release (emit_early_failure new_recorder "assignment missing artifact_bundle_key" node)
      else loaded course (add "load_bundle" (course.elapsed 0) [] new_recorder)
          (load_bundle svc key node)

  unfoldable pub execute_assignment : Course → Node S → Node S
  unfolding run emit_update release load_bundle is_direct_stream_attempt
  execute_assignment course node = admitted course (
      emit_update AssignmentState.starting [] [] "" (pos 0)
        (record node { agent = reserve_assignment_slots msg.network_policy node.agent }))
