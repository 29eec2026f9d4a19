-- ===== src/NodeAgent/Trace.antt =====
-- internal/timetrace/trace.go: the recorder of an execution's steps.
use Prim.Native.Char.{code}
use Prim.Native.String.{◌++◌}
use lecrev.Prelude.{ℕ, String, List, [], ◌∷◌, ◌==◌, if◌then◌else◌, str_eq}
use lecrev.Prelude.Text.{trim_space, decimal, join}
use mathlib.Core.List.{◌++◌ as append}

pub record Recorder : Type 0 where
  pub lines : List String

abbrev pub new_recorder : Recorder
new_recorder = record { lines = [] }

underscores : String → String
underscores String.[] = ""
underscores (String.◌∷◌ c s) =
    if code c == 32 then "_" ++ underscores s else String.◌∷◌ c (underscores s)

unfoldable pub sanitize : String → String
unfolding underscores
sanitize step = if str_eq (trim_space step) "" then "unknown" else underscores (trim_space step)

add_details : String → List String → String
add_details line [] = line
add_details line (detail ∷ details) =
    add_details (if str_eq (trim_space detail) "" then line else line ++ (" " ++ trim_space detail))
      details

-- Add, at a duration in milliseconds that is not negative.
unfoldable pub add : String → ℕ → List String → Recorder → Recorder
unfolding sanitize add_details
add step elapsed details r = record r {
  lines = append r.lines (
      add_details ("[platform] step=" ++ (sanitize step ++ (" durationMs=" ++ decimal elapsed)))
        details
      ∷ []);
}

unfoldable pub note : String → List String → Recorder → Recorder
unfolding add
note step details r = add step 0 details r

unfoldable pub text_of : Recorder → String
text_of r = trim_space (join "\n" r.lines)

unfoldable pub combine : String → String → String
combine trace logs =
    if str_eq (trim_space trace) ""
    then trim_space logs
    else if str_eq (trim_space logs) ""
    then trim_space trace
    else trim_space trace ++ ("\n" ++ trim_space logs)
