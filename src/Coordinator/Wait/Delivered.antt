-- ===== src/Coordinator/Wait/Delivered.antt =====
-- A final update reaches the invocation that waits for it.
use lecrev.Prelude.{
  ℕ, zero, suc, ◌≤◌, ◌≡◌, refl, sym, ◌∙◌, subst, true, false, Option, none, some, List, [], ◌∷◌,
  All, length, ltb, arith, eq_refl, Bool-cases, inl, inr,
}
use mathlib.Core.List.{◌++◌ as append}
use lecrev.Maps.{get, get-put, get-remove}
use lecrev.Errors.{Result, ok}
use lecrev.Domain.{Assignment, Bytes, DirectExecutionResult, JobResult, StartMode, Time}
use lecrev.Store.Backend.{Backend}
use lecrev.Coordinator.Service.{AssignmentState, AssignmentUpdate, Waiter}
use lecrev.Coordinator.Node.{Node}
use lecrev.Coordinator.Updates.{
  is_terminal, handle_assignment_update, handle_direct_invoke_update, queued_updates,
}
use lecrev.Coordinator.Wait.{
  Waited, Rounds, await_update, read_update, final_state, on_update, reported,
}

module _ {S : Type 0} where
  abbrev pub buffered : Node S → Assignment → List AssignmentUpdate
  buffered n a = queued_updates (get n.self.channels a.attempt_id)

  abbrev pub waiting : Node S → Assignment → List AssignmentUpdate
  waiting n a = queued_updates (get n.self.blocked a.attempt_id)

  read_alone :
      (a : Assignment) (n : Node S) (u : AssignmentUpdate) (us : List AssignmentUpdate)
      → buffered n a ≡ u ∷ us
      → waiting n a ≡ []
      → (m : Node S) × (read_update a.attempt_id n ≡ (some u, m))
        × (buffered m a ≡ us)
        × (waiting m a ≡ [])
  unfolding read_update
  read_alone a n u us b w = (
    (read_update a.attempt_id n).1,
    ground (arith, b, w),
    ground
        (arith, b, w, eq_refl a.attempt_id, get-put n.self.channels a.attempt_id a.attempt_id us),
    ground (arith, b, w, eq_refl a.attempt_id, get-put n.self.blocked a.attempt_id a.attempt_id []),
  )

  read_refilled :
      (a : Assignment) (n : Node S) (u f : AssignmentUpdate) (us : List AssignmentUpdate)
      → buffered n a ≡ u ∷ us
      → waiting n a ≡ f ∷ []
      → (m : Node S) × (read_update a.attempt_id n ≡ (some u, m))
        × (buffered m a ≡ append us (f ∷ []))
        × (waiting m a ≡ [])
  unfolding read_update
  read_refilled a n u f us b w = (
    (read_update a.attempt_id n).1,
    ground (arith, b, w),
    ground (
      arith,
      b,
      w,
      eq_refl a.attempt_id,
      get-put n.self.channels a.attempt_id a.attempt_id (append us (f ∷ [])),
    ),
    ground (arith, b, w, eq_refl a.attempt_id, get-put n.self.blocked a.attempt_id a.attempt_id []),
  )

-- The answer is the execution's, as the update tells it.
abbrev pub Delivers : AssignmentUpdate → Option (Result DirectExecutionResult) → Type 0
Delivers f answer =
    (d : DirectExecutionResult) × (r : JobResult) × (answer ≡ some (ok d))
    × (d.state ≡ final_state f.state)
    × (d.error ≡ f.error_message)
    × (d.result ≡ some r)
    × (r.exit_code ≡ f.exit_code)
    × (r.logs ≡ f.logs)
    × (r.output ≡ f.output)

module _ {S : Type 0} (db : Backend S) (rounds : Rounds) (a : Assignment) (mode : StartMode)
    (began : Time) (lasts : (k : ℕ) → rounds.ends k ≡ false)
    (handled : (k : ℕ) (b : Bytes) → rounds.on_event k b ≡ none) where
  reported_lem :
      (k : ℕ) (bytes : Bytes) (next : Node S → Waited S) (n : Node S)
      → reported db rounds a mode began k bytes next n ≡ next n
  reported_lem k [] next n = refl
  reported_lem k (b ∷ bytes) next n = rw (handled k (b ∷ bytes), reported) refl

  passed :
      (state : AssignmentState) (k : ℕ) (started : Time) (u : AssignmentUpdate)
      (next : Time → Node S → Waited S) (n : Node S)
      → is_terminal state ≡ false
      → (t : Time) × (on_update db rounds a mode began k started state u next n ≡ next t n)
  passed AssignmentState.unspecified k started u next n h = (started, refl)
  passed AssignmentState.starting k started u next n h = (_, reported_lem k u.output _ n)
  passed AssignmentState.running k started u next n h = (_, reported_lem k u.output _ n)
  passed AssignmentState.succeeded k started u next n h = cc h
  passed AssignmentState.failed k started u next n h = cc h

  final :
      (state : AssignmentState) (k : ℕ) (started : Time) (u : AssignmentUpdate)
      (next : Time → Node S → Waited S) (n : Node S)
      → u.state ≡ state
      → is_terminal state ≡ true
      → Delivers u (on_update db rounds a mode began k started state u next n).0
  final AssignmentState.unspecified k started u next n e h = cc h
  final AssignmentState.starting k started u next n e h = cc h
  final AssignmentState.running k started u next n e h = cc h
  final AssignmentState.succeeded k started u next n e h =
      (_, _, refl, refl, refl, refl, refl, refl, refl)
  final AssignmentState.failed k started u next n e h =
      (_, _, refl, refl, refl, refl, refl, refl, refl)

  -- A round that reads an update.
  round_lem :
      (left k : ℕ) (started : Time) (n m : Node S) (u : AssignmentUpdate)
      → read_update a.attempt_id n ≡ (some u, m)
      → await_update db rounds a mode began (suc left) k started n
        ≡ on_update db rounds a mode began k started u.state u
            (await_update db rounds a mode began left (suc k))
            m
  unfolding await_update
  round_lem left k started n m u r = rw (lasts k, r) refl

  awaited :
      (us : List AssignmentUpdate) (f : AssignmentUpdate) (left k : ℕ) (started : Time) (n : Node S)
      → buffered n a ≡ append us (f ∷ [])
      → waiting n a ≡ []
      → All (λ u. is_terminal u.state ≡ false) us
      → is_terminal f.state ≡ true
      → suc (length us) ≤ left
      → Delivers f (await_update db rounds a mode began left k started n).0
  awaited us f zero k started n b w p t l = absurd (omega (arith, l))
  awaited [] f (suc left) k started n b w p t l =
      let (m, r, c, v) = read_alone a n f [] b w in
      subst (λ x. Delivers f x.0) (sym (round_lem left k started n m f r))
        (final f.state k started f _ m refl t)
  awaited (u ∷ us) f (suc left) k started n b w p t l =
      let (m, r, c, v) = read_alone a n u (append us (f ∷ [])) b w in
      let (s, e) =
        passed u.state k started u (await_update db rounds a mode began left (suc k)) m p.0 in
      subst (λ x. Delivers f x.0) (sym (round_lem left k started n m u r ∙ e))
        (awaited us f left (suc k) s m c v p.1 t (omega (arith, l)))

  refilled :
      (us : List AssignmentUpdate) (f : AssignmentUpdate) (left k : ℕ) (started : Time) (n : Node S)
      → 1 ≤ length us
      → buffered n a ≡ us
      → waiting n a ≡ f ∷ []
      → All (λ u. is_terminal u.state ≡ false) us
      → is_terminal f.state ≡ true
      → suc (length us) ≤ left
      → Delivers f (await_update db rounds a mode began left k started n).0
  refilled us f zero k started n o b w p t l = absurd (omega (arith, l))
  refilled [] f (suc left) k started n o b w p t l = absurd (omega (arith, o))
  refilled (u ∷ us) f (suc left) k started n o b w p t l =
      let (m, r, c, v) = read_refilled a n u f us b w in
      let (s, e) =
        passed u.state k started u (await_update db rounds a mode began left (suc k)) m p.0 in
      subst (λ x. Delivers f x.0) (sym (round_lem left k started n m u r ∙ e))
        (awaited us f left (suc k) s m c v p.1 t (omega (arith, l)))

  -- What the coordinator does with a final update, and then the invocation's loop: the updates that
  -- are buffered are read first, each of them not a final one, and the round after the last of them
  -- ends the wait with the answer of the final update, even if the buffer was full. The invocation
  -- is one that was not canceled, whose context does not end and whose events are handled, and no
  -- other update waits for room.
  pub direct-final :
      (msg : AssignmentUpdate) (now : Time) (n : Node S) (waiter : Waiter) (left k : ℕ)
      (started : Time)
      → msg.attempt_id ≡ a.attempt_id
      → get n.self.direct_invokes a.attempt_id ≡ some waiter
      → waiter.canceled ≡ false
      → is_terminal msg.state ≡ true
      → waiting n a ≡ []
      → All (λ u. is_terminal u.state ≡ false) (buffered n a)
      → suc (length (buffered n a)) ≤ left
      → let after = (handle_assignment_update db msg now n).1 in
        (get after.self.direct_invokes a.attempt_id ≡ none)
        × Delivers msg (await_update db rounds a mode began left k started after).0
  unfolding handle_assignment_update handle_direct_invoke_update
  direct-final msg now n waiter left k started i h c t w p l =
      let after = (handle_assignment_update db msg now n).1 in
      let us = buffered n a in
      (
        ground (
          arith,
          i,
          h,
          c,
          t,
          eq_refl a.attempt_id,
          get-remove n.self.direct_invokes a.attempt_id a.attempt_id,
        ),
        elim (Bool-cases (ltb (length us) 16)) [
          | inl b ↦
              awaited us msg left k started after
                (ground (
                  arith,
                  i,
                  h,
                  c,
                  t,
                  b,
                  eq_refl a.attempt_id,
                  get-put n.self.channels a.attempt_id a.attempt_id (append us (msg ∷ [])),
                ))
                (ground (arith, i, h, c, t, b, w)) p t l
          | inr b ↦
              refilled us msg left k started after (ground (arith, b))
                (ground (arith, i, h, c, t, b))
                (ground (
                  arith,
                  i,
                  h,
                  c,
                  t,
                  b,
                  w,
                  eq_refl a.attempt_id,
                  get-put n.self.blocked a.attempt_id a.attempt_id (msg ∷ []),
                ))
                p t l
        ],
      )
