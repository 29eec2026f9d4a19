-- ===== src/Coordinator/Wait.antt =====
-- internal/coordinator/service.go: the loop of ExecuteDirectStream that waits for the updates of its
-- attempt.
pub mod Delivered
use lecrev.Prelude.{
  ℕ, zero, suc, ◌-◌, ◌/◌, ◌==◌, String, Bool, Option, none, some, List, [], ◌∷◌, if◌then◌else◌,
}
use mathlib.Core.List.{◌++◌ as append}
use lecrev.Maps.{get, put}
use lecrev.Errors.{Error, Result, ok, err, canceled}
use lecrev.Domain.{Assignment, Bytes, DirectExecutionResult, JobResult, JobState, StartMode, Time}
use lecrev.Store.Backend.{Backend}
use lecrev.Coordinator.Service.{AssignmentState, AssignmentUpdate}
use lecrev.Coordinator.Node.{Node}
use lecrev.Coordinator.Updates.{queued_updates, cancel_direct_invoke}

-- `<-waiter.updates`: the first update of the channel, whose place a waiting sender takes; none if
-- the channel is empty, and the reader waits.
module _ {S : Type 0} where
  abbrev store_updates : String → List AssignmentUpdate → List AssignmentUpdate → Node S → Node S
  store_updates id updates waiting n = record n {
    self = record n.self {
      channels = put n.self.channels id updates;
      blocked = put n.self.blocked id waiting;
    };
  }

  abbrev taken :
      String
      → List AssignmentUpdate
      → List AssignmentUpdate
      → Node S
      → Option AssignmentUpdate × Node S
  taken id [] waiting n = (none, n)
  taken id (u ∷ updates) [] n = (some u, store_updates id updates [] n)
  taken id (u ∷ updates) (w ∷ waiting) n =
      (some u, store_updates id (append updates (w ∷ [])) waiting n)

  unfoldable pub read_update : String → Node S → Option AssignmentUpdate × Node S
  read_update id n =
      taken id (queued_updates (get n.self.channels id)) (queued_updates (get n.self.blocked id)) n

-- In milliseconds, of times in nanoseconds.
abbrev pub latency : Time → Time → ℕ
latency started finished =
    if (finished - started) / 1000000 == 0 then 1 else (finished - started) / 1000000

abbrev pub final_state : AssignmentState → JobState
final_state AssignmentState.failed = JobState.failed
final_state _ = JobState.succeeded

abbrev pub direct_result :
    Assignment → StartMode → Time → Time → AssignmentUpdate → DirectExecutionResult
direct_result a mode started finished u = record {
  job_id = a.job_id;
  attempt_id = a.attempt_id;
  state = final_state u.state;
  error = u.error_message;
  start_mode = mode;
  result = some (record {
    exit_code = u.exit_code;
    logs = u.logs;
    logs_key = "";
    output = u.output;
    output_key = "";
    host_id = u.host_id;
    region = u.region;
    started_at = started;
    finished_at = finished;
    latency_ms = latency started finished;
  });
  finished_at = finished;
  started_at = started;
}

-- What the loop meets in its k-th round: whether it sees the context end, what becomes of an event
-- that it decodes and hands to onHTTPEvent, and the clock.
pub record Rounds : Type 0 where
  pub ends : ℕ → Bool
  pub on_event : ℕ → Bytes → Option Error
  pub now : ℕ → Time

-- The answer, if there is one in the rounds that are looked at.
abbrev pub Waited : Type 0 → Type 0
Waited S = Option (Result DirectExecutionResult) × Node S

abbrev started_or : Time → Time → Time
started_or started now = if started == 0 then now else started

module _ {S : Type 0} (db : Backend S) (rounds : Rounds) (a : Assignment) (mode : StartMode)
    (began : Time) where
  -- An event is handed on before the next round.
  abbrev pub reported : ℕ → Bytes → (Node S → Waited S) → Node S → Waited S
  reported k [] next n = next n
  reported k (b ∷ bytes) next n = elim (rounds.on_event k (b ∷ bytes)) [
    | none ↦ next n
    | some e ↦ (some (err e), n)
  ]

  abbrev pub on_update :
      ℕ → Time → AssignmentState → AssignmentUpdate → (Time → Node S → Waited S) → Node S → Waited S
  on_update k started AssignmentState.unspecified u next n = next started n
  on_update k started AssignmentState.starting u next n =
      reported k u.output (next (started_or started (rounds.now k))) n
  on_update k started AssignmentState.running u next n =
      reported k u.output (next (started_or started (rounds.now k))) n
  on_update k started AssignmentState.succeeded u next n =
      (some (ok (direct_result a mode (started_or started began) (rounds.now k) u)), n)
  on_update k started AssignmentState.failed u next n =
      (some (ok (direct_result a mode (started_or started began) (rounds.now k) u)), n)

  abbrev on_read :
      ℕ → Time → (Time → Node S → Waited S) → Option AssignmentUpdate × Node S → Waited S
  on_read k started next (none, n) = (none, n)
  on_read k started next (some u, n) = on_update k started u.state u next n

  -- `left` rounds from the k-th one.
  unfoldable pub await_update : ℕ → ℕ → Time → Node S → Waited S
  unfolding read_update cancel_direct_invoke
  await_update zero k started n = (none, n)
  await_update (suc left) k started n =
      let next = await_update left (suc k) in
      if rounds.ends k
      then (some (err canceled), (cancel_direct_invoke db a.attempt_id n).1)
      else on_read k started next (read_update a.attempt_id n)
