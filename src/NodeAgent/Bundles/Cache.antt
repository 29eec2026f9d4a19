-- ===== src/NodeAgent/Bundles/Cache.antt =====
-- A bundle is fetched once.
use lecrev.Prelude.{String, ◌≡◌, arith, str_eq, eq_refl, Option-cases, Bool-cases, inl, inr}
use lecrev.Prelude.Text.{trim_space}
use lecrev.Maps.{get, get-put}
use lecrev.Errors.{ok, Result-cases}
use lecrev.Domain.{Bytes}
use lecrev.NodeAgent.State.{Service, Node}
use lecrev.NodeAgent.Bundles.{load_bundle}

-- A bundle that was loaded is loaded again with the same bytes, without the object store and with
-- nothing changed.
load_bundle_twice :
    {S : Type 0} (svc : Service S) (key : String) (node : Node S) {bundle : Bytes} {node' : Node S}
    → load_bundle svc key node ≡ (ok bundle, node')
    → load_bundle svc key node' ≡ (ok bundle, node')
unfolding load_bundle
load_bundle_twice svc key node {bundle} {node'} e =
    let k = trim_space key in
    elim (Bool-cases (str_eq k "")) [
      | inl b ↦ ground (arith, b)
      | inr b ↦ elim (Option-cases (get node.agent.bundle_cache k)) [
        | inr (c, h) ↦ ground (arith, b, h)
        | inl h ↦ elim (Result-cases (svc.objects.get_object k node.world).0) [
          | inl (x, r) ↦ ground (arith, b, h, r)
          | inr (c, r) ↦ ground (arith, b, h, r, eq_refl k, get-put node.agent.bundle_cache k k c)
        ]
      ]
    ]
