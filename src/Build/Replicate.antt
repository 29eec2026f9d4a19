-- ===== src/Build/Replicate.antt =====
-- internal/build/replicator.go: the RegionReplicator.
pub mod Available
use Prim.Native.String.{◌++◌}
use lecrev.Prelude.{ℕ, suc, String, List, [], ◌∷◌, Option, none, some}
use lecrev.Maps.{Assoc, get, put}
use lecrev.Errors.{Result, Exec, ok, err, pure, raise, outcome, ◌>>=◌, ◌>>◌, wrapped, other}
use lecrev.Domain.{Time}
use lecrev.Artifact.Objects.{ObjectStore}
use lecrev.Build.State.{ReplicationRequest}

-- The regions' object stores, and the k-th reading of the clock.
module _ {S : Type 0} (stores : Assoc (ObjectStore S)) (now : ℕ → Time) where
  abbrev or_wrapped : String → Result (Unit {0}) → Exec S (Unit {0})
  or_wrapped text (ok u) = pure tt
  or_wrapped text (err e) = raise (wrapped text e "")

  abbrev put_in : String → ReplicationRequest → Option (ObjectStore S) → Exec S (Unit {0})
  put_in region req none =
      raise (other ("artifact replication target " ++ (region ++ " is not configured")))
  put_in region req (some store) = do
    bundle ← outcome (store.put_object req.bundle_key req.bundle)
    or_wrapped ("replicate bundle to " ++ (region ++ ": ")) bundle
    startup ← outcome (store.put_object req.startup_key req.startup)
    or_wrapped ("replicate startup metadata to " ++ (region ++ ": ")) startup

  unfoldable pub replicate_loop :
      ReplicationRequest → ℕ → List String → Assoc Time → Exec S (Assoc Time)
  replicate_loop req k [] available = pure available
  replicate_loop req k (region ∷ regions) available = do
    put_in region req (get stores region)
    replicate_loop req (suc k) regions (put available region (now k))

  unfoldable pub replicate : ReplicationRequest → Exec S (Assoc Time)
  unfolding replicate_loop
  replicate req = replicate_loop req 0 req.regions []
