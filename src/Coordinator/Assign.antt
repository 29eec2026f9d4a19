-- ===== src/Coordinator/Assign.antt =====
-- internal/coordinator/service.go: EnqueueExecution, assignExecution, PrepareFunctionWarm and the
-- start of a direct invocation. `ctx_done` says that the final select saw the context end.
pub mod Leak
use Prim.Native.String.{◌++◌}
use lecrev.Prelude.{String, Bool, true, false, Option, none, some, if◌then◌else◌, str_eq}
use lecrev.Prelude.Text.{trim_space}
use lecrev.Errors.{
  Error, Result, ok, err, Exec, outcome, pure, raise, ◌>>=◌, ◌>>◌, other, canceled,
  no_execution_capacity, mentions_no_active_hosts, message,
}
use lecrev.Domain.{Time, Assignment, Attempt, FunctionVersion, StartMode}
use lecrev.Store.Backend.{Backend}
use lecrev.Coordinator.Service.{Session, Link, Message, embedded, channel}
use lecrev.Coordinator.Node.{
  Node, on_shared, session_of, set_session, set_waiter, drop_waiter, open_channel,
}
use lecrev.Coordinator.Reserve.{
  pick_host, pick_warm_host, restore_host_reservation, restore_preparation_reservation,
}
use lecrev.Coordinator.Hosts.{offer}

abbrev pub control_channel_full : String → Error
control_channel_full id = other ("host " ++ (id ++ " control channel full"))

abbrev pub placed_attempt : Attempt → String → StartMode → Time → Attempt
placed_attempt a host_id mode now = record a {
  host_id = host_id;
  start_mode = mode;
  updated_at = now;
}

module _ {S : Type 0} (db : Backend S) where
  -- The errors of pickHost as the scheduler should see them.
  abbrev picked {ℓ} : {A : Type ℓ} → Result A → Exec (Node S) A
  picked (ok a) = pure a
  picked (err e) =
      if mentions_no_active_hosts e then raise (no_execution_capacity (message e)) else raise e

  -- A select on a session's channel: `give_back` undoes the reservation where nothing is sent.
  abbrev sent : String → Session → Exec (Node S) (Unit {0}) → Option Link → Exec (Node S) (Unit {0})
  sent id session give_back none = do give_back; raise (control_channel_full id)
  sent id session give_back (some link) = set_session id (record session { link = link })

  -- The executor of an embedded host takes every message; a channel may be full or too late.
  abbrev deliver :
      Message → String → Session → Bool → Exec (Node S) (Unit {0}) → Link → Exec (Node S) (Unit {0})
  deliver msg id session ctx_done give_back (embedded inbox) =
      sent id session give_back (offer msg (embedded inbox))
  deliver msg id session false give_back (channel capacity pending) =
      sent id session give_back (offer msg (channel capacity pending))
  deliver msg id session true give_back (channel capacity pending) = do give_back; raise canceled

  abbrev send :
      Message → String → Bool → Exec (Node S) (Unit {0}) → Option Session → Exec (Node S) (Unit {0})
  send msg id ctx_done give_back none = do give_back; raise (control_channel_full id)
  send msg id ctx_done give_back (some session) =
      deliver msg id session ctx_done give_back session.link

  unfoldable pub assign_execution : Assignment → Bool → Time → Exec (Node S) (Unit {0})
  unfolding pick_host restore_host_reservation offer
  assign_execution a ctx_done now = do
    choice ← outcome (pick_host db a now)
    (id, mode) ← picked choice
    old ← on_shared (db.get_attempt a.attempt_id)
    on_shared (db.update_attempt (placed_attempt old id mode now))
    session ← session_of id
    send (Message.assignment a) id ctx_done
        (restore_host_reservation db id a.function_version_id mode a.network_policy now) session

  -- EnqueueExecution: over the bus where there is one.
  unfoldable pub enqueue_execution :
      Option (String → Assignment → Exec (Node S) (Unit {0}))
      → Assignment
      → Bool
      → Time
      → Exec (Node S) (Unit {0})
  unfolding assign_execution
  enqueue_execution none a ctx_done now n = assign_execution a ctx_done now n
  enqueue_execution (some publish) a ctx_done now n = publish n.self.region a n

  abbrev deliver_prepare :
      Message
      → String
      → Session
      → Bool
      → Exec (Node S) (Unit {0})
      → Bool
      → Link
      → Exec (Node S) (Unit {0})
  deliver_prepare msg id session ctx_done give_back true (embedded inbox) =
      sent id session give_back (offer msg (embedded inbox))
  deliver_prepare msg id session true give_back false (embedded inbox) = do
    give_back
    raise canceled
  deliver_prepare msg id session false give_back false (embedded inbox) = do
    give_back
    raise (control_channel_full id)
  deliver_prepare msg id session ctx_done give_back prepares (channel capacity pending) =
      deliver msg id session ctx_done give_back (channel capacity pending)

  abbrev send_prepare :
      Message → String → Bool → Exec (Node S) (Unit {0}) → Option Session → Exec (Node S) (Unit {0})
  send_prepare msg id ctx_done give_back none = do give_back; raise (control_channel_full id)
  send_prepare msg id ctx_done give_back (some session) =
      deliver_prepare msg id session ctx_done give_back session.prepares session.link

  abbrev prepare_on :
      FunctionVersion → String → Bool → Time → String × Bool → Exec (Node S) (Unit {0})
  prepare_on version bundle_key ctx_done now (id, true) = pure tt
  prepare_on version bundle_key ctx_done now (id, false) = do
    session ← session_of id
    send_prepare (Message.prepare version bundle_key id) id ctx_done
        (restore_preparation_reservation db id version.network_policy now) session

  unfoldable pub prepare_function_warm :
      Option FunctionVersion → Bool → Time → Exec (Node S) (Unit {0})
  unfolding pick_warm_host restore_preparation_reservation offer
  prepare_function_warm none ctx_done now = raise (other "function version is required")
  prepare_function_warm (some version) ctx_done now = do
    artifact ← on_shared (db.get_artifact version.artifact_digest)
    choice ← pick_warm_host db version.id version.network_policy now
    prepare_on version artifact.bundle_key ctx_done now choice

  -- A blank identifier is replaced by a fresh one.
  abbrev named : String → String → String → String
  named id prefix uuid = if str_eq (trim_space id) "" then prefix ++ uuid else id

  abbrev with_ids : Assignment → String → String → Assignment
  with_ids a uuid uuid' = record a {
    attempt_id = named a.attempt_id "direct-attempt-" uuid;
    job_id = named a.job_id "direct-job-" uuid';
  }

  -- ExecuteDirectStream up to its wait for updates: the assignment as sent, and its start mode.
  unfoldable pub start_direct :
      Assignment → String → String → Bool → Time → Exec (Node S) (Assignment × StartMode)
  unfolding pick_host restore_host_reservation offer
  start_direct asked uuid uuid' ctx_done now =
      let a = with_ids asked uuid uuid' in
      do
        choice ← outcome (pick_host db a now)
        (id, mode) ← picked choice
        set_waiter a.attempt_id (record { canceled = false })
        open_channel a.attempt_id
        session ← session_of id
        send (Message.assignment a) id ctx_done
            (drop_waiter a.attempt_id
              >> restore_host_reservation db id a.function_version_id mode a.network_policy now)
            session
        pure (a, mode)
