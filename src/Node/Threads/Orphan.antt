-- ===== src/Node/Threads/Orphan.antt =====
-- A node that is stopped and whose next start is refused: its heartbeat thread goes on.
use d_ro_cm.Base.{
  suc, ◌+◌, ◌≡◌, refl, Bool, true, false, List, [], ◌∷◌, ◌++◌, length, some, if◌then◌else◌, All,
  arith,
}
use d_ro_cm.Node.Sent.{heartbeats, heartbeats-append}
use d_ro_cm.Grpc.{Status}
use d_ro_cm.Proto.{RegisterResponse}
use d_ro_cm.Node.{Node, done, connect, is_accepted, start, stop}
use d_ro_cm.Node.Loop.{
  Turn, State, Event, emit, heartbeat_request, heartbeat_accepted, is_heartbeat_accepted,
}
use d_ro_cm.Node.Threads.{
  Pc, HeartbeatThread, phase, state_of, Owner, System, Step, Reach, here, next, refuse_start,
  stop_node, run_current,
}
use d_ro_cm.Node.Threads.Invariant.{Inv, at_owner}

abbrev stopped : Node → Node
stopped n = record n {
  coro_adapter = false;
  registry_stub = false;
  registry_channel = false;
  is_running = false;
  is_registered = false;
}

-- The thread after a heartbeat whose answer does not make it register again, and back in its sleep.
abbrev beaten : Node → HeartbeatThread → Turn → HeartbeatThread
beaten n w u =
    let s = emit (state_of n w) (Event.send_heartbeat (heartbeat_request n u) ∷ []) in
    let t = if is_heartbeat_accepted u.heartbeat_answer then heartbeat_accepted s else s in
    record w { pc = Pc.head; reconnect_attempts = t.reconnect_attempts; events = t.events }

abbrev asleep_again : Node → HeartbeatThread → HeartbeatThread
asleep_again n w = record w {
  pc = Pc.sleeping;
  events = w.events ++ Event.sleep_ms n.heartbeat_interval_ms ∷ [];
}

-- The answer does not ask for a reconnection where it would be heeded.
abbrev pub Unasked : Turn → Type 0
Unasked u =
    is_heartbeat_accepted u.heartbeat_answer ≡ false → u.heartbeat_answer.1.should_reconnect ≡ false

phase-beaten :
    (n : Node) (w : HeartbeatThread) (u : Turn)
    → n.registry_stub ≡ true
    → w.pc ≡ Pc.sleeping
    → w.stop_requested ≡ false
    → Unasked u
    → phase n w u ≡ done (n, beaten n w u)
unfolding phase
phase-beaten n w u stub asleep free unasked = ground (arith, unasked)

phase-asleep :
    (n : Node) (w : HeartbeatThread) (u : Turn)
    → w.pc ≡ Pc.head
    → w.stop_requested ≡ false
    → phase n w u ≡ done (n, asleep_again n w)
unfolding phase
phase-asleep n w u head free = ground arith

heartbeats-accepted :
    (s : State) (b : Bool)
    → heartbeats (if b then heartbeat_accepted s else s).events ≡ heartbeats s.events
heartbeats-accepted s b = ground (arith, heartbeats-append s.events (Event.on_reconnected ∷ []))

beaten-heartbeats :
    (n : Node) (w : HeartbeatThread) (u : Turn)
    → heartbeats (asleep_again n (beaten n w u)).events ≡ suc (heartbeats w.events)
beaten-heartbeats n w u =
    let e = Event.send_heartbeat (heartbeat_request n u) in
    omega (
      arith,
      heartbeats-append (beaten n w u).events (Event.sleep_ms n.heartbeat_interval_ms ∷ []),
      heartbeats-accepted (emit (state_of n w) (e ∷ [])) (is_heartbeat_accepted u.heartbeat_answer),
      heartbeats-append w.events (e ∷ []),
    )

-- The node is not running, a further `stop` does nothing, its stub is there, and its thread, which
-- nobody has asked to stop, sleeps.
pub record IsAbandoned (s : System) (w : HeartbeatThread) : Type 0 where
  pub owner : s.owner ≡ Owner.idle
  pub running : s.node.is_running ≡ false
  pub deaf : stop s.node ≡ done s.node
  pub stub : s.node.registry_stub ≡ true
  pub current : s.current ≡ some w
  pub asleep : w.pc ≡ Pc.sleeping
  pub free : w.stop_requested ≡ false

turn_beats :
    (s : System) (w : HeartbeatThread) (u : Turn)
    → IsAbandoned s w
    → Unasked u
    → (t : System) × (w' : HeartbeatThread) × Reach s t
      × IsAbandoned t w'
      × (heartbeats w'.events ≡ suc (heartbeats w.events))
turn_beats s w u o unasked =
    let w₁ = beaten s.node w u in
    let w₂ = asleep_again s.node w₁ in
    let s₁ = record s { current = some w₁ } in
    let s₂ = record s { current = some w₂ } in
    let st₁ : Step s (done s₁) =
      run_current w u o.current (rw (phase-beaten s.node w u o.stub o.asleep o.free unasked)) in
    let st₂ : Step s₁ (done s₂) =
      run_current w₁ u refl (rw (phase-asleep s.node w₁ u refl o.free)) in
    (
      s₂,
      w₂,
      next (next here st₁) st₂,
      record {
        owner = o.owner;
        running = o.running;
        deaf = o.deaf;
        stub = o.stub;
        current = refl;
        asleep = refl;
        free = o.free;
      },
      beaten-heartbeats s.node w u,
    )

Reach-trans : {a b c : System} → Reach a b → Reach b c → Reach a c
Reach-trans r here = r
Reach-trans r (next q st) = next (Reach-trans r q) st

turns_beat :
    (s : System) (w : HeartbeatThread) (us : List Turn)
    → IsAbandoned s w
    → All Unasked us
    → (t : System) × (w' : HeartbeatThread) × Reach s t
      × IsAbandoned t w'
      × (heartbeats w'.events ≡ heartbeats w.events + length us)
turns_beat s w [] o a = (s, w, here, o, omega arith)
turns_beat s w (u ∷ us) o a =
    let (t, w₁, r, o₁, one) = turn_beats s w u o a.0 in
    let (t', w₂, q, o₂, rest) = turns_beat t w₁ us o₁ a.1 in
    (t', w₂, Reach-trans r q, o₂, omega (arith, one, rest))

-- Running, not stopped before, and with a thread in its sleep.
pub record IsBeating (s : System) (w : HeartbeatThread) : Type 0 where
  pub owner : s.owner ≡ Owner.idle
  pub running : s.node.is_running ≡ true
  pub adapter : s.node.coro_adapter ≡ true
  pub current : s.current ≡ some w
  pub asleep : w.pc ≡ Pc.sleeping

-- A running node that was not stopped before and whose thread sleeps can be stopped and refused by
-- its next start, and then, with further turns in which the thread is not asked to reconnect, send
-- a heartbeat in each of them, while it is not running, its thread is not asked to stop and a
-- further stop does nothing.
pub orphan_beats :
    (s : System) (w : HeartbeatThread) (answer : Status × RegisterResponse) (us : List Turn)
    → Inv s
    → IsBeating s w
    → is_accepted answer ≡ false
    → All Unasked us
    → (t : System) × (w' : HeartbeatThread) × Reach s t
      × IsAbandoned t w'
      × (heartbeats w'.events ≡ heartbeats w.events + length us)
unfolding start stop
orphan_beats s w answer us v b refused unasked =
    let h = at_owner s Owner.idle b.owner v in
    let n = stopped s.node in
    let s₁ = record s { node = n } in
    let s₂ = record s { node = connect n } in
    let st₁ : Step s (done s₁) = stop_node b.owner (ground (arith, b.running, b.adapter)) in
    let st₂ : Step s₁ (done s₂) = refuse_start answer b.owner refl refused (ground arith) in
    let o : IsAbandoned s₂ w = record {
      owner = b.owner;
      running = refl;
      deaf = refl;
      stub = refl;
      current = b.current;
      asleep = b.asleep;
      free = ground (arith, b.current);
    } in
    let (t, w', r, o', sent) = turns_beat s₂ w us o unasked in
    (t, w', Reach-trans (next (next here st₁) st₂) r, o', sent)
