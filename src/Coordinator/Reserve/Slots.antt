-- ===== src/Coordinator/Reserve/Slots.antt =====
-- A reservation and what gives it back: the counts of a host return, and none falls below zero.
use lecrev.Prelude.{String, ◌≡◌, arith, eq_iff}
use lecrev.Prelude.Int.{pos, ◌-ℤ◌, -+ℤ_cancel}
use lecrev.Maps.{put, get-put}
use lecrev.Domain.{Host, NetworkPolicy}
use lecrev.Coordinator.Capacity.{classify_start_mode, count_of}
use lecrev.Coordinator.Reserve.{reserve, restore}

-- A host that gets its reservation back with the start mode that the reservation chose has the
-- counts it had before: slots, full-network slots, blank instances and those of every function.
pub restore-reserve :
    (policy : NetworkPolicy) (id : String) (host : Host) (k : String)
    → let mode = classify_start_mode host id in
      let back = restore policy mode id (reserve policy mode id host) in
      (back.available_slots ≡ host.available_slots)
      × (back.available_full_network_slots ≡ host.available_full_network_slots)
      × (back.blank_warm ≡ host.blank_warm)
      × (count_of back.function_warm k ≡ count_of host.function_warm k)
unfolding restore reserve classify_start_mode
restore-reserve policy id host k =
    let m = host.function_warm in
    let taken = put m id (count_of m id -ℤ pos 1) in
    ground (
      arith,
      -+ℤ_cancel host.available_slots (pos 1),
      -+ℤ_cancel host.available_full_network_slots (pos 1),
      -+ℤ_cancel host.blank_warm (pos 1),
      -+ℤ_cancel (count_of m id) (pos 1),
      get-put m id id (count_of m id -ℤ pos 1),
      get-put m id k (count_of m id -ℤ pos 1),
      get-put taken id k (count_of m id),
      eq_iff id k,
      eq_iff id id,
    )
