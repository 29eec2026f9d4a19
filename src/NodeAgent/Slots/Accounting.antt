-- ===== src/NodeAgent/Slots/Accounting.antt =====
-- The slots of an agent over an interleaving of its assignments: goroutines take the mutex one
-- after the other, so a run is a sequence of the steps below.
use lecrev.Prelude.{ℕ, suc, ◌+◌, ◌≤◌, ◌<◌, String, ◌≡◌, refl, ap, sym, subst, arith, bit}
use lecrev.Prelude.Int.{ℤ, pos}
use lecrev.NodeAgent.State.{Agent, Config, Service, new}
use lecrev.NodeAgent.Messages.{heartbeat_message}
use lecrev.NodeAgent.Slots.{
  reserve_assignment_slots, release_assignment_slots, reserve_slot, release_slot, apply_drain,
  is_full_network_policy,
}

-- The agent after some steps, with the number of the assignments that are running and of the ones
-- among them that hold the full network. No drain has come.
pub data Reached (c : Config) (cpus : ℕ) : Agent → ℕ → ℕ → Type 0 where
  fresh : (a : Agent) → a ≡ new c cpus → Reached c cpus a 0 0
  -- An assignment begins, within the limits.
  begin :
      (p : String) (a b : Agent) (n f g : ℕ)
      → Reached c cpus a n f
      → n < a.max_slots
      → f + bit (is_full_network_policy p) ≤ a.max_full_network
      → b ≡ reserve_assignment_slots p a
      → g ≡ f + bit (is_full_network_policy p)
      → Reached c cpus b (suc n) g
  -- A running assignment ends.
  finish :
      (p : String) (a b : Agent) (n f g : ℕ)
      → Reached c cpus a (suc n) g
      → g ≡ f + bit (is_full_network_policy p)
      → b ≡ release_assignment_slots p a
      → Reached c cpus b n f

abbrev Exact : Agent → ℕ → ℕ → Type 0
Exact a n f = (a.available_slots + n ≡ a.max_slots) × (a.available_full + f ≡ a.max_full_network)

reserve-Exact :
    (p : String) (a : Agent) (n f : ℕ)
    → Exact a n f
    → n < a.max_slots
    → f + bit (is_full_network_policy p) ≤ a.max_full_network
    → Exact (reserve_assignment_slots p a) (suc n) (f + bit (is_full_network_policy p))
unfolding reserve_assignment_slots reserve_slot
reserve-Exact p a n f h i j = ground arith

release-Exact :
    (p : String) (a : Agent) (n f : ℕ)
    → Exact a (suc n) (f + bit (is_full_network_policy p))
    → Exact (release_assignment_slots p a) n f
unfolding release_assignment_slots release_slot
release-Exact p a n f h = ground arith

-- As long as no more assignments run than the limits allow and no drain has come, the free slots
-- that an agent reports are exactly the ones that no assignment holds, for both kinds of slots and
-- in every order of the assignments' beginnings and ends.
pub reached-Exact :
    (c : Config) (cpus : ℕ) (a : Agent) (n f : ℕ)
    → Reached c cpus a n f
    → (a.available_slots + n ≡ a.max_slots) × (a.available_full + f ≡ a.max_full_network)
unfolding new
reached-Exact c cpus a n f (fresh _ e) = ground (arith, e)
reached-Exact c cpus b n g (begin p a _ m f _ r i j e k) =
    subst (λ x. Exact x (suc m) g) (sym e)
      (subst (λ x. Exact (reserve_assignment_slots p a) (suc m) x) (sym k)
        (reserve-Exact p a m f (reached-Exact c cpus a m f r) i j))
reached-Exact c cpus b n f (finish p a _ _ _ g r k e) =
    subst (λ x. Exact x n f) (sym e)
      (release-Exact p a n f
        (subst (λ x. Exact a (suc n) x) k (reached-Exact c cpus a (suc n) g r)))

module _ {S : Type 0} (svc : Service S) (s : S) (c : Config) (cpus : ℕ) where
  -- What the heartbeat tells of the free slots.
  abbrev pub offered : Agent → ℤ
  offered a = (heartbeat_message svc a s).available_slots

  -- An assignment that comes while as many run as the limit allows, with no drain before, and after
  -- it the end of one: as many still run as the limit allows, and yet a heartbeat offers a slot.
  pub overreports :
      (p q : String) (a : Agent) (n f : ℕ)
      → Reached c cpus a (suc n) f
      → suc n ≡ a.max_slots
      → (offered a ≡ pos 0)
        × (offered (release_assignment_slots q (reserve_assignment_slots p a)) ≡ pos 1)
  unfolding heartbeat_message reserve_assignment_slots release_assignment_slots reserve_slot
      release_slot
  overreports p q a n f r h =
      let z : a.available_slots ≡ 0 = omega (arith, (reached-Exact c cpus a (suc n) f r).0, h) in
      (ap pos z, ap pos (ground (arith, z, h)))

  -- An agent that is drained while assignments run offers no slot, until the first of them ends: it
  -- then offers one again.
  pub drain_undone :
      (q : String) (a : Agent) (n f : ℕ)
      → Reached c cpus a (suc n) f
      → (offered (apply_drain a) ≡ pos 0)
        × (offered (release_assignment_slots q (apply_drain a)) ≡ pos 1)
  unfolding heartbeat_message release_assignment_slots release_slot apply_drain
  drain_undone q a n f r =
      let h : 0 < a.max_slots = omega (arith, (reached-Exact c cpus a (suc n) f r).0) in
      (refl, ap pos (ground (arith, h)))
