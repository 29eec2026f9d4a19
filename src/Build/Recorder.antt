-- ===== src/Build/Recorder.antt =====
-- internal/build/service.go: the recorder of a build's log, and its archival.
use Prim.Native.String.{◌++◌}
use lecrev.Prelude.{String, List, [], ◌∷◌, suc}
use lecrev.Prelude.Utf8.{utf8}
use lecrev.Errors.{Exec, ok, pure, ◌>>◌}
use lecrev.Artifact.{build_logs_key}
use lecrev.Build.State.{Service, Env, Run, on_world, modify}

module _ {S : Type 0} (svc : Service S) (env : Env) where
  -- Printf: the line goes to the log, and the log to the object store, whose error is dropped.
  unfoldable pub printf : String → Exec (Run S) (Unit {0})
  printf text run =
      let log = run.log ++ ("[" ++ (env.stamp run.lines ++ ("] " ++ (text ++ "\n")))) in
      (
        ok tt,
        record run {
          log = log;
          lines = suc run.lines;
          world = (svc.objects.put_object run.job.logs_key (utf8 log) run.world).1;
        },
      )

  unfoldable pub print_all : List String → Exec (Run S) (Unit {0})
  print_all [] = pure tt
  print_all (text ∷ texts) = printf text >> print_all texts

  abbrev pub archive_under : String → String → Exec (Run S) (Unit {0})
  archive_under key log = do
    on_world (svc.objects.put_object key (utf8 log))
    modify (λ r. record r { job = record r.job { logs_key = key } })

  unfoldable pub archive_build_logs : Exec (Run S) (Unit {0})
  archive_build_logs run = archive_under (build_logs_key run.job.id) run.log run
