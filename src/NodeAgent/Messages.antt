-- ===== src/NodeAgent/Messages.antt =====
-- internal/nodeagent/service.go: the registration and the heartbeats, with the inventory they report.
use lecrev.Prelude.{ℕ, [], ◌∷◌, Option, none, some, ltb, if◌then◌else◌}
use lecrev.Prelude.Int.{pos, ℤ}
use lecrev.Maps.{Assoc}
use lecrev.Coordinator.{RegisterHost, HostHeartbeat}
use lecrev.NodeAgent.State.{Service, Agent, Node, WarmInventory, Driver, heartbeat, driver_name}

abbrev pub min : ℕ → ℕ → ℕ
min left right = if ltb left right then left else right

abbrev pub capped : ℕ → Assoc ℕ → Assoc ℤ
capped slots [] = []
capped slots ((id, count) ∷ m) = (id, pos (min count slots)) ∷ capped slots m

abbrev own_inventory : Agent → WarmInventory
own_inventory a = record {
  blank_warm = pos (min a.blank_warm a.available_slots);
  function_warm = capped a.available_slots a.function_warm;
}

module _ {S : Type 0} where
  abbrev plain_inventory : Option (S → WarmInventory) → Agent → S → WarmInventory
  plain_inventory none a s = own_inventory a
  plain_inventory (some f) a s = f s

  abbrev slot_inventory :
      Option (ℕ → S → WarmInventory) → Option (S → WarmInventory) → Agent → S → WarmInventory
  slot_inventory none plain a s = plain_inventory plain a s
  slot_inventory (some f) plain a s = f a.available_slots s

  unfoldable pub warm_inventory : Driver S → Agent → S → WarmInventory
  warm_inventory driver a s =
      slot_inventory driver.warm_inventory_for_slots driver.warm_inventory a s

  unfoldable pub registration_message : Service S → Agent → S → RegisterHost
  unfolding warm_inventory driver_name
  registration_message svc a s =
      let inventory = warm_inventory svc.driver a s in
      record {
        host_id = svc.host_id;
        region = svc.region;
        driver = driver_name svc.driver;
        available_slots = pos a.available_slots;
        available_full_network_slots = pos a.available_full;
        blank_warm = inventory.blank_warm;
        function_warm = inventory.function_warm;
      }

  unfoldable pub heartbeat_message : Service S → Agent → S → HostHeartbeat
  unfolding warm_inventory
  heartbeat_message svc a s =
      let inventory = warm_inventory svc.driver a s in
      record {
        host_id = svc.host_id;
        available_slots = pos a.available_slots;
        available_full_network_slots = pos a.available_full;
        blank_warm = inventory.blank_warm;
        function_warm = inventory.function_warm;
      }

  unfoldable pub send_heartbeat : Service S → Node S → Node S
  unfolding heartbeat_message
  send_heartbeat svc node = record node {
    sent = heartbeat (heartbeat_message svc node.agent node.world) ∷ node.sent;
  }
