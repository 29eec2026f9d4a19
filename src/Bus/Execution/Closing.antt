-- ===== src/Bus/Execution/Closing.antt =====
-- A close that comes between a publisher's lookup and its send.
use lecrev.Prelude.{ℕ, zero, String, true, false, ◌≡◌, [], ◌∷◌, some, arith, Option-cases, inl, inr}
use lecrev.Maps.{Assoc, get, put}
use lecrev.Domain.{Assignment}
use lecrev.Bus.Execution.{
  System, publish, send, close, step, is_queue, queue, publish_execution, send_on, close_bus,
}
use lecrev.Bus.Execution.Queue.{run}

get-is_queue : (m : Assoc ℕ) (region : String) (c : ℕ) → get m region ≡ some c → is_queue c m ≡ true
unfolding get
get-is_queue [] region c e = cc e
get-is_queue ((r, k) ∷ m) region c e = ground (arith, e, get-is_queue m region c)

put-is_queue : (m : Assoc ℕ) (region : String) (c : ℕ) → is_queue c (put m region c) ≡ true
unfolding put
put-is_queue [] region c = ground arith
put-is_queue ((r, k) ∷ m) region c = ground (arith, put-is_queue m region c)

-- On a bus that is open and has no other publisher, a publisher that has looked its channel up when
-- the bus is closed, and sends then, ends the process with a panic.
close-panics :
    (region : String) (a : Assignment) (s : System)
    → s.panicked ≡ false
    → s.bus.closed ≡ false
    → s.senders ≡ []
    → (run (publish region a ∷ (close ∷ (send zero ∷ []))) s).1.panicked ≡ true
unfolding step publish_execution send_on close_bus queue
close-panics region a s p c n = elim (Option-cases (get s.bus.queues region)) [
  | inl g ↦ ground (arith, p, c, n, g, put-is_queue s.bus.queues region s.bus.next)
  | inr (k, g) ↦ ground (arith, p, c, n, g, get-is_queue s.bus.queues region k g)
]
