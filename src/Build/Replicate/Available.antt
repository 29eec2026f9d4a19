-- ===== src/Build/Replicate/Available.antt =====
-- Where a replicated artifact is available.
use lecrev.Prelude.{
  ℕ, suc, String, Bool, true, false, ◌||◌, ◌≡◌, List, [], ◌∷◌, Option, none, some, contains, arith,
}
use lecrev.Maps.{Assoc, get, put, get-put}
use lecrev.Errors.{ok, bind_ok}
use lecrev.Domain.{Time}
use lecrev.Artifact.Objects.{ObjectStore}
use lecrev.Build.State.{ReplicationRequest}
use lecrev.Build.Replicate.{replicate, replicate_loop, put_in}

abbrev pub is_available : Option Time → Bool
is_available none = false
is_available (some t) = true

module _ {S : Type 0} (stores : Assoc (ObjectStore S)) (now : ℕ → Time) where
  loop_lem :
      (req : ReplicationRequest) (k : ℕ) (regions : List String) (available : Assoc Time) (s : S)
      (region : String) {m : Assoc Time} {s' : S}
      → replicate_loop stores now req k regions available s ≡ (ok m, s')
      → is_available (get m region)
        ≡ (contains regions region || is_available (get available region))
  unfolding replicate_loop
  loop_lem req k [] available s region e = ground (arith, e)
  loop_lem req k (r ∷ rs) available s region {m} {s'} e =
      let (u, f, g) =
        bind_ok (put_in stores now r req (get stores r))
          (λ u. replicate_loop stores now req (suc k) rs (put available r (now k))) s e in
      ground (
        arith,
        get-put available r region (now k),
        loop_lem req (suc k) rs (put available r (now k))
            (put_in stores now r req (get stores r) s).1 region {m = m} {s' = s'} g,
      )

  -- An artifact that was replicated is marked available in exactly the regions that were asked for.
  pub replicate-contains :
      (req : ReplicationRequest) (s : S) (region : String) {m : Assoc Time} {s' : S}
      → replicate stores now req s ≡ (ok m, s')
      → is_available (get m region) ≡ contains req.regions region
  unfolding replicate get
  replicate-contains req s region {m} {s'} e =
      ground (arith, loop_lem req 0 req.regions [] s region {m = m} {s' = s'} e)
