-- ===== src/Deployment/Emulator/Rejoin.antt =====
-- The turn in which the emulator's thread registers again.
use Prim.Native.String.{◌++◌}
use d_ro_cm.Base.{
  ℕ, ◌<◌, String, ◌≡◌, refl, ap, ◌≢◌, ◌∙◌, true, false, [], ◌∷◌, All, Option, some, eq_refl, none,
  arith,
}
use d_ro_cm.Grpc.{Status, is_ok}
use d_ro_cm.Proto.{NodeInfo, RegisterResponse, empty_heartbeat_response, empty_register_response}
use d_ro_cm.Registry.NodeTable.{NodeEntry, get_node}
use d_ro_cm.Registry.NodeTable.Invariant.{IsValid}
use d_ro_cm.Registry.HealthChecker.Entry.{IsAlive}
use d_ro_cm.Registry.Service.{RegistryService, heartbeat}
use d_ro_cm.Registry.Service.Outcomes.{HasRoom, IsKnown, register_accepted, register-is_ok_iff}
use d_ro_cm.Registry.Service.Shutdown.{register_request, serve}
use d_ro_cm.Registry.Service.Refinement.{serve-IsValid}
use d_ro_cm.Registry.Service.Lifecycle.{heartbeat_known}
use d_ro_cm.Lidar.Heartbeat.{State, request, registration, try_register_node}
use d_ro_cm.Lidar.Heartbeat.Healing.{delivered, recovering_turn}
use d_ro_cm.Deployment.{Delivery}
use d_ro_cm.Deployment.Known.{IsUsual, increments, run_usual}
use d_ro_cm.Deployment.Emulator.{
  Meeting, World, after, joined, answered, register_answer, heartbeat_answer, midway, sends, meet,
  running_turn, pending,
}

module _ (node_id : String) (port : ℕ) (named : node_id ≢ "") where
  -- The turn that registers.
  module _ (max : ℕ) (x : World) (e : Meeting) (wants : x.thread.needs_reregister ≡ true)
      (runs : x.service.is_running ≡ true) (valid : IsValid (after e.others x.service).node_table)
      (room : HasRoom (after e.others x.service).node_table node_id)
      (usual : All (IsUsual max node_id) e.between) (few : increments e.between < max)
      (arrives : e.register_delivery ≡ Delivery.delivered)
      (arrives' : e.heartbeat_delivery ≡ Delivery.delivered) where
    abbrev info : NodeInfo
    info = record {
      node_id = node_id;
      ip_address = "127.0.0.1";
      port = port;
      services = "lidar" ∷ [];
      startup_timestamp = 0;
    }

    abbrev entered : RegistryService
    entered = (joined node_id port x e).0

    abbrev found : RegistryService
    found = after e.between entered

    abbrev told : State
    told = record x.thread { session_id = (joined node_id port x e).1.session_id }

    accepted :
        (is_ok (joined node_id port x e).2 ≡ true)
        × ((joined node_id port x e).1.success ≡ true)
        × ((joined node_id port x e).1.session_id ≡ node_id ++ "_" ++ e.roll)
        × IsAlive 0 (get_node entered.node_table node_id)
    accepted =
        let b = after e.others x.service in
        let join = registration node_id port in
        let (fresh, session, _, success) =
          register_accepted b join empty_register_response e.roll e.now info node_id refl
            (runs, named, room) in
        (
          (register-is_ok_iff b join empty_register_response e.roll e.now).1 (runs, named, room),
          success,
          session,
          rw (fresh, eq_refl node_id) (omega arith),
        )

    entered-IsValid : IsValid entered.node_table
    unfolding serve
    entered-IsValid =
        serve-IsValid (after e.others x.service)
          (register_request (registration node_id port) empty_register_response e.roll e.now) valid

    found-IsAlive : IsAlive (increments e.between) (get_node found.node_table node_id)
    found-IsAlive =
        run_usual max node_id 0 (increments e.between) entered.node_table e.between entered-IsValid
          usual (omega arith) few accepted.3

    heard :
        (o : Option NodeEntry)
        → get_node found.node_table node_id ≡ o
        → IsAlive (increments e.between) o
        → let h =
            heartbeat found
              (request node_id port told (pending e))
              empty_heartbeat_response
              e.later in
          (is_ok h.2 ≡ true) × (h.1.success ≡ true) × IsKnown h.0 node_id
    heard none known a = absurd a
    heard (some entry) known a =
        let (ok, success, held) =
          heartbeat_known found (request node_id port told (pending e)) empty_heartbeat_response
            e.later entry named known in
        (ok, success, (λ h. cc (held)))

    heard_back :
        (register_answer node_id port x e ≡ delivered (joined node_id port x e))
        × (heartbeat_answer node_id port x e ≡ delivered (answered node_id port x e))
    heard_back = (rw arrives refl, rw arrives' refl)

    session_taken :
        (try_register_node x.thread.session_id (delivered (joined node_id port x e))).0
        ≡ (joined node_id port x e).1.session_id
    unfolding try_register_node
    session_taken = let (joins, success, _, _) = accepted in rw (joins, success) refl

    midway-told : midway node_id port x e ≡ record { thread = told; service = found }
    midway-told = rw (wants, arrives, session_taken) refl

    answered_heard :
        answered node_id port x e
        ≡ heartbeat found (request node_id port told (pending e)) empty_heartbeat_response e.later
    answered_heard = rw midway-told refl

    meet_sends : (meet node_id port x e).service ≡ (answered node_id port x e).0
    unfolding meet
    meet_sends =
        let (joins, success, _, _) = accepted in
        let sent : sends node_id port x e ≡ true = rw (wants, arrives, joins, success) refl in
        rw (sent, arrives') refl

    -- If the table has room, both calls arrive, and what comes between the registration and the heartbeat
    -- neither deregisters the node nor makes up the checker's threshold, the turn leaves the thread
    -- with the new session and no failure, and the node known.
    pub meet_restores :
        ((meet node_id port x e).thread.session_id ≡ node_id ++ "_" ++ e.roll)
        × ((meet node_id port x e).thread.needs_reregister ≡ false)
        × ((meet node_id port x e).thread.consecutive_failures ≡ 0)
        × IsKnown (meet node_id port x e).service node_id
    unfolding meet
    meet_restores =
        let (joins, success, session, _) = accepted in
        let (ok, success', known) = heard (get_node found.node_table node_id) refl found-IsAlive in
        let (registered, beaten) = heard_back in
        let u =
          running_turn e (register_answer node_id port x e) (heartbeat_answer node_id port x e) in
        let (same, done, none_left) =
          recovering_turn node_id port x.thread u wants (rw (registered, joins) success)
            (rw (beaten, answered_heard, ok) success') in
        (
          same ∙ ap (λ (a : Status × RegisterResponse). a.1.session_id) registered ∙ session,
          done,
          none_left,
          rw (meet_sends, answered_heard) known,
        )
