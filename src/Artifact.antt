-- ===== src/Artifact.antt =====
-- internal/artifact/keys.go: the object keys of logs, outputs and site assets.
pub mod Objects
use Prim.Native.String.{◌++◌}
use Prim.Native.Char.{code}
use lecrev.Prelude.{String, Bool, false, ◌||◌, ◌==◌, str_eq, if◌then◌else◌}

unfoldable pub build_logs_key : String → String
build_logs_key id = "builds/" ++ (id ++ "/logs.txt")

unfoldable pub execution_logs_key : String → String → String
execution_logs_key job_id attempt_id =
    "executions/" ++ (job_id ++ ("/" ++ (attempt_id ++ "/logs.txt")))

unfoldable pub execution_output_key : String → String → String
execution_output_key job_id attempt_id =
    "executions/" ++ (job_id ++ ("/" ++ (attempt_id ++ "/output.json")))

unfoldable pub site_manifest_key : String → String
site_manifest_key digest = "artifacts/" ++ (digest ++ "/site-manifest.json")

unfoldable pub site_assets_prefix : String → String
site_assets_prefix digest = "sites/" ++ (digest ++ "/assets")

abbrev starts_with_slash : String → Bool
starts_with_slash String.[] = false
starts_with_slash (String.◌∷◌ c s) = code c == b'/'

unfoldable pub site_asset_object_key : String → String → String
unfolding site_assets_prefix
site_asset_object_key digest asset_path =
    if str_eq asset_path "" || str_eq asset_path "/"
    then site_assets_prefix digest ++ "/index.html"
    else if starts_with_slash asset_path
    then site_assets_prefix digest ++ asset_path
    else site_assets_prefix digest ++ ("/" ++ asset_path)
