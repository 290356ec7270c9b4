-- ===== src/Node/Lifecycle.antt =====
-- Starting and stopping a node, and what its heartbeat thread meets afterwards.
use d_ro_cm.Base.{
  inl, inr, String, ◌≡◌, refl, ◌⊎◌, true, false, ltb, ◌||◌, ◌&&◌, not, if◌then◌else◌, arith,
}
use d_ro_cm.Grpc.{Status}
use d_ro_cm.Proto.{NodeInfo, RegisterResponse}
use d_ro_cm.Node.{Node, done, null_dereference, new_node, start, stop, is_accepted}
use d_ro_cm.Node.Loop.{State, Turn, Exit, beat, turn, is_heartbeat_accepted}

-- What holds of a node between the calls of its owner, as long as it is never started again.
pub record IsSound (n : Node) : Type 0 where
  pub adapter : n.is_running ≡ true → n.coro_adapter ≡ true
  pub stub : n.is_running ≡ true → n.registry_stub ≡ true
  pub registered : n.is_running ≡ true → n.is_registered ≡ true
  pub thread : n.is_running ≡ true → n.heartbeat_thread ≡ true

pub new_node-IsSound : (id address : String) (info : NodeInfo) → IsSound (new_node id address info)
unfolding new_node
new_node-IsSound id address info = record {
  adapter = λ h. refl;
  stub = λ h. cc;
  registered = λ h. cc;
  thread = λ h. cc;
}

-- `start` on a node that still has its adapter.
pub start-IsSound :
    (n : Node) (answer : Status × RegisterResponse)
    → n.coro_adapter ≡ true
    → IsSound n
    → IsSound (start n answer).0
unfolding start
start-IsSound n answer a v = record {
  adapter = ground (arith, v.adapter);
  stub = ground (arith, v.stub);
  registered = ground (arith, v.registered);
  thread = ground (arith, v.thread);
}

-- A sound running node stops without a fault, and is then neither running nor registered, without a
-- stub.
pub stop_returns :
    (n : Node)
    → IsSound n
    → n.is_running ≡ true
    → (n' : Node) × (stop n ≡ done n')
      × (n'.is_running ≡ false)
      × (n'.is_registered ≡ false)
      × (n'.registry_stub ≡ false)
      × (n'.heartbeat_thread ≡ true)
unfolding stop
stop_returns n v on = (
  record n {
    coro_adapter = false;
    registry_stub = false;
    registry_channel = false;
    is_running = false;
    is_registered = false;
  },
  ground (arith, v.adapter on, v.stub on, v.registered on),
  refl,
  refl,
  refl,
  v.thread on,
)

-- `start` reports success exactly if the node was running already or the registry accepted it; the
-- node then runs; and it takes the session id of the answer exactly if it was not running and the
-- answer was accepted.
pub start_iff :
    (n : Node) (answer : Status × RegisterResponse)
    → ((start n answer).1 ≡ (n.is_running || is_accepted answer))
      × ((start n answer).0.is_running ≡ (n.is_running || is_accepted answer))
      × ((start n answer).0.session_id
          ≡ (if not n.is_running && is_accepted answer then answer.1.session_id else n.session_id))
unfolding start
start_iff n answer = (ground arith, ground arith, ground arith)

-- If the owner stops a sound running node while its heartbeat thread sleeps, and the thread sees no
-- stop request when it wakes, the thread calls through the null stub.
pub stop_faults_loop :
    (s : State) (u : Turn)
    → IsSound s.node
    → s.node.is_running ≡ true
    → u.stop_at_head ≡ false
    → u.owner_stops ≡ true
    → u.stop_after_sleep ≡ false
    → (turn s u).1 ≡ Exit.fault
unfolding turn
stop_faults_loop s u v on head owner after =
    let (n', stopped, _, _, no_stub, _) = stop_returns s.node v on in
    rw (head, owner, stopped, beat, after, no_stub)

-- The thread waits in this turn before it registers again.
abbrev pub Retries : State → Turn → Type 0
Retries s u =
    (is_heartbeat_accepted u.heartbeat_answer ≡ false)
    × (u.heartbeat_answer.1.should_reconnect ≡ true)
    × (ltb s.reconnect_attempts s.node.reconnect_strategy.max_attempts ≡ true)

-- If the owner stops a sound running node while its heartbeat thread waits before a reconnection,
-- the thread registers through the null stub when it wakes: the loop reads no stop token there.
pub stop_faults_reconnect :
    (s : State) (u : Turn)
    → IsSound s.node
    → s.node.is_running ≡ true
    → u.stop_at_head ≡ false
    → u.owner_stops ≡ false
    → u.stop_after_sleep ≡ false
    → Retries s u
    → u.owner_stops_waiting ≡ true
    → (turn s u).1 ≡ Exit.fault
unfolding turn
stop_faults_reconnect s u v on head owner after (refused, asked, more) late =
    let (n', stopped, _, _, no_stub, _) = stop_returns s.node v on in
    let stub = v.stub on in ground (arith, stopped, no_stub, stub)

-- The owner calls `stop` in one of the turn's two sleeps: that of the heartbeat's interval, or that
-- before a reconnection.
abbrev pub StopsAsleep : State → Turn → Type 0
StopsAsleep s u =
    (u.owner_stops ≡ true)
    ⊎ ((u.owner_stops ≡ false) × Retries s u × (u.owner_stops_waiting ≡ true))

-- If the owner stops a sound running node while its heartbeat thread sleeps, for the heartbeat's
-- interval or before a reconnection, and the thread reads no stop request in that turn, the thread
-- calls through the null stub.
pub stop_faults_asleep :
    (s : State) (u : Turn)
    → IsSound s.node
    → s.node.is_running ≡ true
    → u.stop_at_head ≡ false
    → u.stop_after_sleep ≡ false
    → StopsAsleep s u
    → (turn s u).1 ≡ Exit.fault
stop_faults_asleep s u v on head after (inl owner) = stop_faults_loop s u v on head owner after
stop_faults_asleep s u v on head after (inr (owner, retries, late)) =
    stop_faults_reconnect s u v on head owner after retries late

-- The thread's own view: without a stub no turn sends anything; it ends by the stop token or by a
-- fault.
pub stopped_turn :
    (s : State) (u : Turn)
    → s.node.registry_stub ≡ false
    → u.owner_stops ≡ false
    → ((turn s u).1 ≡ Exit.stopped) ⊎ ((turn s u).1 ≡ Exit.fault)
unfolding turn
stopped_turn s u no_stub owner = ground arith

-- A sound running node that is stopped, and then started with an accepted registration, faults in
-- its next stop.
pub restart_faults :
    (n : Node) (answer : Status × RegisterResponse)
    → IsSound n
    → n.is_running ≡ true
    → is_accepted answer ≡ true
    → (n' : Node) × (stop n ≡ done n')
      × ((start n' answer).1 ≡ true)
      × (stop (start n' answer).0 ≡ null_dereference)
unfolding start stop
restart_faults n answer v on accepted =
    let n' = record n {
      coro_adapter = false;
      registry_stub = false;
      registry_channel = false;
      is_running = false;
      is_registered = false;
    } in
    (n', ground (arith, v.adapter on, v.stub on, v.registered on), rw accepted, rw accepted)
