-- ===== src/Coordinator/Hosts.antt =====
-- internal/coordinator/service.go: hosts that register, report, drain, disconnect and go stale.
pub mod Loss
use Prim.Native.String.{◌++◌}
use lecrev.Prelude.{
  ℕ, ◌+◌, String, Bool, true, false, Option, none, some, List, [], ◌∷◌, length, ltb, ◌==◌,
  if◌then◌else◌,
}
use mathlib.Core.List.{◌++◌ as append}
use lecrev.Prelude.Int.{pos}
use lecrev.Errors.{Exec, pure, raise, ◌>>=◌, ◌>>◌, other, canceled}
use lecrev.Domain.{Time, Host, HostState}
use lecrev.Store.Backend.{Backend}
use lecrev.Coordinator.Service.{
  Session, Link, embedded, channel, Message, RegisterHost, HostHeartbeat,
}
use lecrev.Coordinator.Capacity.{warm_map, warm_pools_for_host}
use lecrev.Coordinator.Node.{
  Node, on_shared, session_of, set_session, drop_session, persist_region, mirror, mirror_quietly,
}

-- `select { case ch <- msg: …; default: … }`: none when the channel is full.
unfoldable pub offer : Message → Link → Option Link
offer msg (embedded inbox) = some (embedded (append inbox (msg ∷ [])))
offer msg (channel capacity pending) =
    if ltb (length pending) capacity
    then some (channel capacity (append pending (msg ∷ [])))
    else none

abbrev pub registered_host : RegisterHost → Time → Host
registered_host msg now = record {
  id = msg.host_id;
  region = msg.region;
  driver = msg.driver;
  state = HostState.active;
  available_slots = msg.available_slots;
  available_full_network_slots = msg.available_full_network_slots;
  blank_warm = msg.blank_warm;
  function_warm = warm_map msg.function_warm;
  last_heartbeat = now;
}

abbrev pub reported_host : Host → HostHeartbeat → Time → Host
reported_host host msg now = record host {
  available_slots = msg.available_slots;
  available_full_network_slots = msg.available_full_network_slots;
  blank_warm = msg.blank_warm;
  function_warm = warm_map msg.function_warm;
  last_heartbeat = now;
}

abbrev pub down_host : Host → Host
down_host host = record host {
  state = HostState.down;
  available_slots = pos 0;
  available_full_network_slots = pos 0;
  blank_warm = pos 0;
  function_warm = [];
}

abbrev pub draining_host : Host → Host
draining_host host = record host {
  state = HostState.draining;
  available_slots = pos 0;
  available_full_network_slots = pos 0;
}

module _ {S : Type 0} (db : Backend S) where
  -- registerHostSession: `link` is the channel of the control stream, or the embedded executor.
  unfoldable pub register_host_session :
      RegisterHost → Link → Bool → Time → Exec (Node S) (Unit {0})
  unfolding persist_region
  register_host_session msg link prepares now =
      let host = registered_host msg now in
      do
        set_session msg.host_id (record { host = host; link = link; prepares = prepares })
        on_shared (db.put_host host)
        on_shared
            (db.replace_warm_pools_for_host host.region host.id (warm_pools_for_host host now))
        persist_region db now

  abbrev report : HostHeartbeat → Time → Option Session → Exec (Node S) (Unit {0})
  report msg now none = raise (other ("heartbeat for unknown host " ++ msg.host_id))
  report msg now (some session) =
      let host = reported_host session.host msg now in
      do
        set_session msg.host_id (record session { host = host })
        mirror db host (warm_pools_for_host host now) now

  unfoldable pub update_heartbeat : HostHeartbeat → Time → Exec (Node S) (Unit {0})
  unfolding mirror
  update_heartbeat msg now = do session ← session_of msg.host_id; report msg now session

  -- The drain message goes out last; `ctx_done` says that the select saw the context end.
  abbrev announce : String → Session → Bool → Option Link → Exec (Node S) (Unit {0})
  announce id session true offered = raise canceled
  announce id session false none = raise (other ("host " ++ (id ++ " control channel full")))
  announce id session false (some link) = set_session id (record session { link = link })

  abbrev send_drain : String → String → Bool → Session → Link → Exec (Node S) (Unit {0})
  send_drain id reason ctx_done session (embedded inbox) = pure tt
  send_drain id reason ctx_done session (channel capacity pending) =
      announce id session ctx_done (offer (Message.drain id reason) (channel capacity pending))

  abbrev drain : String → String → Bool → Time → String → Option Session → Exec (Node S) (Unit {0})
  drain id reason ctx_done now region none =
      raise (other ("host " ++ (id ++ (" not registered in region " ++ region))))
  drain id reason ctx_done now region (some session) =
      let drained : Session = record session { host = draining_host session.host } in
      do
        set_session id drained
        mirror db drained.host [] now
        send_drain id reason ctx_done drained session.link

  unfoldable pub drain_host : String → String → Bool → Time → Exec (Node S) (Unit {0})
  unfolding mirror offer
  drain_host id reason ctx_done now n =
      (do session ← session_of id; drain id reason ctx_done now n.self.region session) n

  abbrev lost : String → Time → Option Session → Exec (Node S) (Unit {0})
  lost id now none = pure tt
  lost id now (some session) = do drop_session id; mirror_quietly db (down_host session.host) [] now

  unfoldable pub mark_host_down : String → Time → Exec (Node S) (Unit {0})
  unfolding mirror_quietly
  mark_host_down id now = do session ← session_of id; lost id now session

  -- `t.After(now.Add(-age))`.
  abbrev pub within : Time → Time → ℕ → Bool
  within t now age = ltb now (t + age)

  abbrev stored_down : Host → Time → Time → ℕ → Option Session → Exec (Node S) (Unit {0})
  stored_down host now cutoff_now age none = mirror db (down_host host) [] now
  stored_down host now cutoff_now age (some session) =
      if within session.host.last_heartbeat cutoff_now age
      then pure tt
      else do drop_session session.host.id; mirror db (down_host session.host) [] now

  unfoldable pub mark_stored_host_down : Host → Time → Time → ℕ → Exec (Node S) (Unit {0})
  unfolding mirror
  mark_stored_host_down host now cutoff_now age = do
    session ← session_of host.id
    stored_down host now cutoff_now age session

  abbrev is_down : HostState → Bool
  is_down HostState.down = true
  is_down _ = false

  unfoldable pub reap_loop : List Host → Time → Time → ℕ → Exec (Node S) (Unit {0})
  unfolding mark_stored_host_down
  reap_loop [] now cutoff_now age = pure tt
  reap_loop (host ∷ hosts) now cutoff_now age =
      let rest = reap_loop hosts now cutoff_now age in
      if is_down host.state
      then rest
      else if within host.last_heartbeat cutoff_now age
      then rest
      else (mark_stored_host_down host now cutoff_now age >> rest)

  -- reapStaleHosts: `cutoff_now` is the time that the cutoff is taken from, and `now` the time of
  -- the region's snapshots.
  unfoldable pub reap_stale_hosts : Time → Time → Exec (Node S) (Unit {0})
  unfolding reap_loop
  reap_stale_hosts cutoff_now now n =
      let age = n.self.stale_host_after in
      (if age == 0 then pure tt else do
        hosts ← on_shared (db.list_hosts_by_region n.self.region)
        reap_loop hosts now cutoff_now age)
        n
