-- ===== src/Coordinator/Updates/Billing.antt =====
-- The billed time of an execution.
use lecrev.Prelude.{◌+◌, ◌*◌, ◌-◌, ◌≤◌, ◌<◌, arith}
use lecrev.Domain.{Time}
use lecrev.Coordinator.Updates.{runtime_ms}

-- The billed milliseconds, in nanoseconds, exceed the time that passed by at most a million and
-- fall short of it by less; no time passes between times out of order.
runtime-bounds :
    (started finished : Time)
    → (runtime_ms started finished * 1000000 ≤ finished - started + 1000000)
      × (finished - started < runtime_ms started finished * 1000000 + 1000000)
unfolding runtime_ms
runtime-bounds started finished = ground arith
