-- ===== src/NodeAgent/Limits.antt =====
-- internal/nodeagent/service.go: the limits on an execution's logs and output, and its exit code.
pub mod Bounds
use Prim.Native.String.{◌++◌}
use lecrev.Prelude.{
  ℕ, zero, suc, String, Bool, List, [], ◌∷◌, Option, none, some, ltb, length, if◌then◌else◌,
}
use lecrev.Prelude.Int.{ℤ, pos}
use lecrev.Prelude.Text.{join}
use lecrev.Prelude.Take.{take}
use lecrev.Prelude.Utf8.{utf8}
use lecrev.Errors.{Error, other, message}
use lecrev.Domain.{Bytes}

unfoldable pub max_execution_log_bytes : ℕ
max_execution_log_bytes = 8388608

unfoldable pub max_execution_output_bytes : ℕ
max_execution_output_bytes = 33554432

pub record Limited : Type 0 where
  pub logs : Bytes
  pub output : Bytes
  pub error : Option Error

abbrev note_if : Bool → String → List String → List String
note_if over text texts = if over then text ∷ texts else texts

abbrev joined : List String → Option Error
joined [] = none
joined (text ∷ texts) = some (other (join "; " (text ∷ texts)))

unfoldable pub enforce_execution_result_limits : String → Bytes → Limited
enforce_execution_result_limits logs output =
    let long_logs = ltb max_execution_log_bytes (length (utf8 logs)) in
    let long_output = ltb max_execution_output_bytes (length output) in
    record {
      logs = if long_logs then take max_execution_log_bytes (utf8 logs) else utf8 logs;
      output = if long_output then [] else output;
      error = joined (
          note_if long_logs "execution logs exceeded limit of 8388608 bytes"
            (note_if long_output "execution output exceeded limit of 33554432 bytes" []));
    }

unfoldable pub combine_error_messages : Option Error → Option Error → String
combine_error_messages none none = ""
combine_error_messages none (some secondary) = message secondary
combine_error_messages (some primary) none = message primary
combine_error_messages (some primary) (some secondary) =
    message primary ++ ("; " ++ message secondary)

unfoldable pub terminal_exit_code : ℤ → ℤ
terminal_exit_code (pos zero) = pos 1
terminal_exit_code n = n
