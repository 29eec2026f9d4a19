-- ===== src/Bus/Build.antt =====
-- internal/build/memorybus.go: the build bus in memory. Each region has a channel; a consumer takes
-- its assignments one after the other.
pub mod Consume
use lecrev.Prelude.{
  ℕ, String, Bool, List, [], ◌∷◌, ◌++◌, Option, none, some, ltb, length, if◌then◌else◌,
}
use lecrev.Prelude.Int.{ℤ, pos, ltb_ℤ, pos_part}
use lecrev.Maps.{Assoc, get, put}
use lecrev.Errors.{Error, Result, Exec, ok, err}
use lecrev.Build.{BuildAssignment}

pub record MemoryBus : Type 0 where
  pub buffer : ℕ
  pub channels : Assoc (List BuildAssignment)

unfoldable pub new_memory_bus : ℤ → MemoryBus
new_memory_bus buffer = record {
  buffer = if ltb_ℤ (pos 0) buffer then pos_part buffer else 64;
  channels = [];
}

abbrev pub or_empty : Option (List BuildAssignment) → List BuildAssignment
or_empty none = []
or_empty (some q) = q

unfoldable pub channel : String → MemoryBus → List BuildAssignment
channel region b = or_empty (get b.channels region)

-- The assignment is sent, or the channel is full and the caller waits.
unfoldable pub publish_build : String → BuildAssignment → MemoryBus → Bool × MemoryBus
unfolding channel
publish_build region a b = (
  ltb (length (channel region b)) b.buffer,
  record b {
    channels = put b.channels region (
        if ltb (length (channel region b)) b.buffer
        then channel region b ++ (a ∷ [])
        else channel region b);
  },
)

-- ConsumeBuild until the channel is empty: the error that ended it, if one did, and what is left.
module _ {S : Type 0} (handler : BuildAssignment → Exec S (Unit {0})) where
  abbrev after :
      List BuildAssignment
      → (S → (Option Error × List BuildAssignment) × S)
      → Result (Unit {0}) × S
      → (Option Error × List BuildAssignment) × S
  after rest next (err e, s) = ((some e, rest), s)
  after rest next (ok u, s) = next s

  unfoldable pub consume_build :
      List BuildAssignment → S → (Option Error × List BuildAssignment) × S
  consume_build [] s = ((none, []), s)
  consume_build (a ∷ rest) s = after rest (consume_build rest) (handler a s)

-- Close, which drops all channels.
unfoldable pub close : MemoryBus → MemoryBus
close b = record b { channels = [] }
