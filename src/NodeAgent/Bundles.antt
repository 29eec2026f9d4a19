-- ===== src/NodeAgent/Bundles.antt =====
-- internal/nodeagent/service.go: the cache of bundles, and the archival of logs and outputs.
pub mod Cache
use lecrev.Prelude.{String, List, [], ◌∷◌, Option, none, some, if◌then◌else◌, str_eq}
use lecrev.Prelude.Text.{trim_space}
use lecrev.Prelude.Utf8.{utf8}
use lecrev.Maps.{get, put}
use lecrev.Errors.{Result, Exec, ok, err, other, ◌>>=◌, ◌>>◌}
use lecrev.Domain.{Bytes}
use lecrev.Artifact.{execution_logs_key, execution_output_key}
use lecrev.NodeAgent.State.{Service, Node}

module _ {S : Type 0} (svc : Service S) where
  abbrev fetched : String → Result Bytes × S → Exec (Node S) Bytes
  fetched key (err e, s) node = (err e, record node { world = s })
  fetched key (ok bundle, s) node = (
    ok bundle,
    record node {
      world = s;
      agent = record node.agent { bundle_cache = put node.agent.bundle_cache key bundle };
    },
  )

  abbrev cached : String → Option Bytes → Exec (Node S) Bytes
  cached key (some bundle) node = (ok bundle, node)
  cached key none node = fetched key (svc.objects.get_object key node.world) node

  -- Nothing else fills the cache in between.
  unfoldable pub load_bundle : String → Exec (Node S) Bytes
  load_bundle bundle_key node =
      let key = trim_space bundle_key in
      if str_eq key ""
      then (err (other "artifact bundle key is required"), node)
      else cached key (get node.agent.bundle_cache key) node

  abbrev or_null : Bytes → Bytes
  or_null [] = utf8 "null"
  or_null (b ∷ bytes) = b ∷ bytes

  unfoldable pub archive_execution_artifacts : String → String → Bytes → Bytes → Exec S (Unit {0})
  archive_execution_artifacts job_id attempt_id logs output = do
    svc.objects.put_object (execution_logs_key job_id attempt_id) logs
    svc.objects.put_object (execution_output_key job_id attempt_id) (or_null output)
