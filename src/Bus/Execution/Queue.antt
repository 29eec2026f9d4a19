-- ===== src/Bus/Execution/Queue.antt =====
-- The channels of the bus as first-in first-out queues, over every interleaving.
use lecrev.Prelude.{ℕ, ◌≤◌, ◌==◌, false, ◌≡◌, List, [], ◌∷◌, ◌++◌, length, if◌then◌else◌}
use lecrev.Domain.{Assignment}
use lecrev.Bus.Execution.{MemoryBus, System, Event, Op, step, sent, received}

-- What an event puts into a channel, and what it takes out.
abbrev pub put_in : ℕ → Event → List Assignment
put_in c (sent k a) = if k == c then a ∷ [] else []
put_in c e = []

abbrev pub taken_from : ℕ → Event → List Assignment
taken_from c (received k a) = if k == c then a ∷ [] else []
taken_from c e = []

abbrev pub items : System → ℕ → List Assignment
items s c = (s.bus.channels c).items

-- What a step keeps of a channel: what was in it and what is put in is what is taken out and what is
-- left, in this order, and the buffer is not exceeded.
abbrev Flows : ℕ → System → Event × System → Type 0
Flows c s (e, s') =
    (items s c ++ put_in c e ≡ taken_from c e ++ items s' c)
    × (s'.bus.buffer ≡ s.bus.buffer)
    × (length (items s c) ≤ s.bus.buffer → length (items s' c) ≤ s'.bus.buffer)

-- A run, with its events.
abbrev pub run : List Op → System → List Event × System
run [] s = ([], s)
run (op ∷ ops) s = let (events, end) = run ops (step op s).1 in ((step op s).0 ∷ events, end)

-- What the events of a run put into a channel, and what they take out, in their order.
abbrev pub all_sent : ℕ → List Event → List Assignment
all_sent c [] = []
all_sent c (e ∷ events) = put_in c e ++ all_sent c events

abbrev pub all_received : ℕ → List Event → List Assignment
all_received c [] = []
all_received c (e ∷ events) = taken_from c e ++ all_received c events

-- A new bus, which nothing uses yet.
abbrev pub fresh : MemoryBus → System
fresh b = record { bus = b; senders = []; consumers = []; timers = []; panicked = false }
