-- ===== src/Bus/Execution.antt =====
-- internal/dispatch/memory.go: the execution bus in memory, with the goroutines that use it. A step
-- is what one goroutine does under the bus's lock or on one channel: a publisher looks its channel
-- up in one step and sends in another, so that others may come between.
pub mod Queue
pub mod Closing
use lecrev.Prelude.{
  ℕ, zero, suc, ◌+◌, String, Bool, true, false, ◌||◌, List, [], ◌∷◌, ◌++◌, Option, none, some, ltb,
  ◌==◌, length, if◌then◌else◌,
}
use lecrev.Prelude.Int.{ℤ, pos, ltb_ℤ, pos_part}
use lecrev.Maps.{Assoc, get, put}
use lecrev.Domain.{Assignment}

pub record Channel : Type 0 where
  pub items : List Assignment
  pub closed : Bool

-- The channels stand under the numbers in which they were made; the ones from `next` on are still to
-- be made, and are empty and open.
pub record MemoryBus : Type 0 where
  pub buffer : ℕ
  pub queues : Assoc ℕ
  pub closed : Bool
  pub channels : ℕ → Channel
  pub next : ℕ

-- The goroutines: publishers between their lookup and the end of their send, consumers, each with
-- its region and channel, and the timers behind failed handlers.
pub record System : Type 0 where
  pub bus : MemoryBus
  pub senders : List (ℕ × Assignment)
  pub consumers : List (String × ℕ)
  pub timers : List (String × Assignment)
  -- A send on a closed channel has ended the process.
  pub panicked : Bool

abbrev pub new_channel : Channel
new_channel = record { items = []; closed = false }

-- func NewMemoryBus.
unfoldable pub new_memory_bus : ℤ → MemoryBus
new_memory_bus buffer = record {
  buffer = if ltb_ℤ (pos 0) buffer then pos_part buffer else 256;
  queues = [];
  closed = false;
  channels = λ k. new_channel;
  next = 0;
}

pub data Event : Type 0 where
  -- The goroutine waits, or there is none of that number.
  waits : Event
  -- The bus is closed: context.Canceled.
  refused : Event
  -- The channel that was looked up.
  found : ℕ → Event
  sent : ℕ → Assignment → Event
  received : ℕ → Assignment → Event
  -- A consumer returns, or a context that ended takes a publisher or a timer away.
  stopped : Event
  closing : Event
  panics : Event

-- What a goroutine does.
pub data Op : Type 0 where
  -- PublishExecution, to its lookup.
  publish : String → Assignment → Op
  -- The n-th publisher sends, or its context ends.
  send give_up : ℕ → Op
  -- ConsumeExecution, to its lookup.
  consume : String → Op
  -- The n-th consumer reads, and its handler succeeds or not.
  receive : ℕ → Bool → Op
  -- The n-th timer fires, or its context ends.
  fire drop_timer : ℕ → Op
  -- The n-th consumer's context ends.
  leave : ℕ → Op
  close : Op

abbrev pub nth {ℓ} : {A : Type ℓ} → ℕ → List A → Option A
nth n [] = none
nth zero (x ∷ xs) = some x
nth (suc n) (x ∷ xs) = nth n xs

abbrev pub drop_nth {ℓ} : {A : Type ℓ} → ℕ → List A → List A
drop_nth n [] = []
drop_nth zero (x ∷ xs) = xs
drop_nth (suc n) (x ∷ xs) = x ∷ drop_nth n xs

abbrev pub set_channel : ℕ → Channel → (ℕ → Channel) → ℕ → Channel
set_channel c channel channels k = if c == k then channel else channels k

-- The method queue: the channel of a region, made on first use; none if the bus is closed.
abbrev made : String → Option ℕ → MemoryBus → Option ℕ × MemoryBus
made region (some c) b = (some c, b)
made region none b =
    (some b.next, record b { queues = put b.queues region b.next; next = b.next + 1 })

unfoldable pub queue : String → MemoryBus → Option ℕ × MemoryBus
queue region b = if b.closed then (none, b) else made region (get b.queues region) b

abbrev pub looked_up : Assignment → System → Option ℕ × MemoryBus → Event × System
looked_up a s (none, b) = (refused, s)
looked_up a s (some c, b) = (found c, record s { bus = b; senders = s.senders ++ ((c, a) ∷ []) })

unfoldable pub publish_execution : String → Assignment → System → Event × System
unfolding queue
publish_execution region a s = looked_up a s (queue region s.bus)

abbrev pub with_channel : ℕ → Channel → MemoryBus → MemoryBus
with_channel c channel b = record b { channels = set_channel c channel b.channels }

-- The select of PublishExecution: a send on a closed channel panics, and on a full one waits.
unfoldable pub send_on : ℕ → ℕ → Assignment → Channel → System → Event × System
send_on n c a channel s =
    if channel.closed
    then (panics, record s { panicked = true })
    else if ltb (length channel.items) s.bus.buffer
    then (
      sent c a,
      record s {
        bus = with_channel c (record channel { items = channel.items ++ (a ∷ []) }) s.bus;
        senders = drop_nth n s.senders;
      },
    )
    else (waits, s)

abbrev pub sends : ℕ → Option (ℕ × Assignment) → System → Event × System
sends n none s = (waits, s)
sends n (some (c, a)) s = send_on n c a (s.bus.channels c) s

abbrev pub joined : String → System → Option ℕ × MemoryBus → Event × System
joined region s (none, b) = (refused, s)
joined region s (some c, b) =
    (found c, record s { bus = b; consumers = s.consumers ++ ((region, c) ∷ []) })

unfoldable pub consume_execution : String → System → Event × System
unfolding queue
consume_execution region s = joined region s (queue region s.bus)

-- A handler that fails leaves a timer of half a second behind.
abbrev pub requeue_if :
    Bool → String → Assignment → List (String × Assignment) → List (String × Assignment)
requeue_if true region a timers = timers
requeue_if false region a timers = timers ++ ((region, a) ∷ [])

-- One round of a consumer's loop. A closed channel is read to its end.
abbrev pub receive_on : ℕ → Bool → String → ℕ → Bool → List Assignment → System → Event × System
receive_on n handled region c closed [] s =
    if closed then (stopped, record s { consumers = drop_nth n s.consumers }) else (waits, s)
receive_on n handled region c closed (a ∷ items) s = (
  received c a,
  record s {
    bus = with_channel c (record { items = items; closed = closed }) s.bus;
    timers = requeue_if handled region a s.timers;
  },
)

abbrev pub receives : ℕ → Bool → Option (String × ℕ) → System → Event × System
receives n handled none s = (waits, s)
receives n handled (some (region, c)) s =
    receive_on n handled region c (s.bus.channels c).closed (s.bus.channels c).items s

-- The goroutine of a retry publishes; what the closed bus refuses is lost.
abbrev pub fires : ℕ → Option (String × Assignment) → System → Event × System
fires n none s = (waits, s)
fires n (some (region, a)) s =
    publish_execution region a (record s { timers = drop_nth n s.timers })

-- The channels that a close closes are the ones in the map.
abbrev pub is_queue : ℕ → Assoc ℕ → Bool
is_queue c [] = false
is_queue c ((region, k) ∷ queues) = k == c || is_queue c queues

abbrev pub closed_channel : Bool → Channel → Channel
closed_channel b channel = record channel { closed = b || channel.closed }

unfoldable pub close_bus : MemoryBus → MemoryBus
close_bus b = if b.closed then b else record b {
  closed = true;
  queues = [];
  channels = λ k. closed_channel (is_queue k b.queues) (b.channels k);
}

abbrev pub run_op : Op → System → Event × System
run_op (publish region a) s = publish_execution region a s
run_op (send n) s = sends n (nth n s.senders) s
run_op (give_up n) s = (stopped, record s { senders = drop_nth n s.senders })
run_op (consume region) s = consume_execution region s
run_op (receive n handled) s = receives n handled (nth n s.consumers) s
run_op (fire n) s = fires n (nth n s.timers) s
run_op (drop_timer n) s = (stopped, record s { timers = drop_nth n s.timers })
run_op (leave n) s = (stopped, record s { consumers = drop_nth n s.consumers })
run_op close s = (closing, record s { bus = close_bus s.bus })

-- Nothing runs after a panic.
abbrev pub unless_panicked : Bool → Op → System → Event × System
unless_panicked true op s = (waits, s)
unless_panicked false op s = run_op op s

unfoldable pub step : Op → System → Event × System
unfolding publish_execution send_on consume_execution close_bus
step op s = unless_panicked s.panicked op s
