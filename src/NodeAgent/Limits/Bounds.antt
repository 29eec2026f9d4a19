-- ===== src/NodeAgent/Limits/Bounds.antt =====
-- What the limits leave of an execution's logs and output.
use lecrev.Prelude.{◌≤◌, String, ◌≡◌, none, length, arith}
use lecrev.Prelude.Utf8.{utf8}
use lecrev.Prelude.Take.{length-take}
use lecrev.Domain.{Bytes}
use lecrev.NodeAgent.Limits.{
  enforce_execution_result_limits, max_execution_log_bytes, max_execution_output_bytes,
}

-- What an agent reports of an execution is within the limits, and where it reports no excess it
-- reports all of it.
limited_bounds :
    (logs : String) (output : Bytes)
    → let l = enforce_execution_result_limits logs output in
      (length l.logs ≤ max_execution_log_bytes) × (length l.output ≤ max_execution_output_bytes)
unfolding enforce_execution_result_limits
limited_bounds logs output = ground (arith, length-take max_execution_log_bytes (utf8 logs))

unlimited :
    (logs : String) (output : Bytes)
    → (enforce_execution_result_limits logs output).error ≡ none
    → ((enforce_execution_result_limits logs output).logs ≡ utf8 logs)
      × ((enforce_execution_result_limits logs output).output ≡ output)
unfolding enforce_execution_result_limits
unlimited logs output e = ground arith
