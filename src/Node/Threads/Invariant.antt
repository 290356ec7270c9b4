-- ===== src/Node/Threads/Invariant.antt =====
-- What holds of a node and its heartbeat threads whenever the owner and the threads are between two
-- of their steps.
use d_ro_cm.Base.{String, ◌≡◌, refl, subst, Bool, true, false, Option, none, some, arith}
use d_ro_cm.Proto.{NodeInfo}
use d_ro_cm.Node.{Node, Outcome, done, null_dereference, new_node, start, stop}
use d_ro_cm.Node.Loop.{State, Turn}
use d_ro_cm.Node.Threads.{
  Pc, HeartbeatThread, phase, moved, phase_at, state_of, Owner, System, initial, put_node,
  destroyed, put_current, put_fresh, IsJoinable, Step, Reach, here, next, refuse_start,
  accept_start, stop_node, destroy_node, assign, leave, run_current, run_fresh,
}

abbrev pub is_some : Option HeartbeatThread → Bool
is_some none = false
is_some (some _) = true

-- If there is a thread, its stop token says `b`.
abbrev pub Asked : Bool → Option HeartbeatThread → Type 0
Asked b none = Unit
Asked b (some w) = w.stop_requested ≡ b

abbrev pub Holds : Owner → System → Type 0
Holds Owner.idle s =
    (s.fresh ≡ none)
    × Asked false s.current
    × (s.node.is_running ≡ true
        → (is_some s.current ≡ true)
          × (s.node.registry_stub ≡ true)
          × (s.node.is_registered ≡ true))
Holds Owner.assigning s =
    (is_some s.fresh ≡ true)
    × Asked false s.fresh
    × Asked true s.current
    × (s.node.registry_stub ≡ true)
    × (s.node.is_registered ≡ true)
    × (s.node.is_running ≡ false)
Holds Owner.destroying s = (s.fresh ≡ none) × Asked true s.current × (s.node.is_running ≡ false)
Holds Owner.gone s = (s.fresh ≡ none) × Asked true s.current × IsJoinable s.current

pub record Inv (s : System) : Type 0 where
  pub thread : s.node.heartbeat_thread ≡ is_some s.current
  pub holds : Holds s.owner s

-- What a thread's step leaves of the object.
pub record KeepsNode (n n' : Node) : Type 0 where
  pub stub : n'.registry_stub ≡ n.registry_stub
  pub running : n'.is_running ≡ n.is_running
  pub thread : n'.heartbeat_thread ≡ n.heartbeat_thread
  pub registered : n.is_registered ≡ true → n'.is_registered ≡ true

phase_at-KeepsNode :
    (pc pc' : Pc) (s s' : State) (b : Bool) (u : Turn)
    → phase_at pc s b u ≡ done (s', pc')
    → KeepsNode s.node s'.node
phase_at-KeepsNode Pc.head pc' s s' b u e = ground arith
phase_at-KeepsNode Pc.sleeping pc' s s' b u e = ground arith
phase_at-KeepsNode Pc.waiting pc' s s' b u e = ground arith
phase_at-KeepsNode Pc.ended pc' s s' b u e = ground arith

-- What it leaves of the thread.
pub record Keeps (n n' : Node) (w w' : HeartbeatThread) : Type 0 where
  pub node : KeepsNode n n'
  pub token : w'.stop_requested ≡ w.stop_requested
  pub ended : w.pc ≡ Pc.ended → w'.pc ≡ Pc.ended

moved-Keeps :
    (n n' : Node) (w w' : HeartbeatThread) (u : Turn) (o : Outcome (State × Pc))
    → phase_at w.pc (state_of n w) w.stop_requested u ≡ o
    → moved w o ≡ done (n', w')
    → Keeps n n' w w'
moved-Keeps n n' w w' u (done (s, pc)) e h =
    let k = phase_at-KeepsNode w.pc pc (state_of n w) s w.stop_requested u e in
    record { node = ground (arith, k); token = ground arith; ended = ground arith }
moved-Keeps n n' w w' u null_dereference e h = cc

pub phase-Keeps :
    (n n' : Node) (w w' : HeartbeatThread) (u : Turn)
    → phase n w u ≡ done (n', w')
    → Keeps n n' w w'
unfolding phase
phase-Keeps n n' w w' u e =
    moved-Keeps n n' w w' u (phase_at w.pc (state_of n w) w.stop_requested u) refl e

run_current-Holds :
    (o : Owner) (s : System) (n' : Node) (w w' : HeartbeatThread)
    → Keeps s.node n' w w'
    → s.current ≡ some w
    → Holds o s
    → Holds o (record s { node = n'; current = some w' })
run_current-Holds Owner.idle s n' w w' k e h = ground (arith, k.node)
run_current-Holds Owner.assigning s n' w w' k e h = ground (arith, k.node)
run_current-Holds Owner.destroying s n' w w' k e h = ground (arith, k.node)
run_current-Holds Owner.gone s n' w w' k e h = ground (arith, k.node)

run_fresh-Holds :
    (o : Owner) (s : System) (n' : Node) (w w' : HeartbeatThread)
    → Keeps s.node n' w w'
    → s.fresh ≡ some w
    → Holds o s
    → Holds o (record s { node = n'; fresh = some w' })
run_fresh-Holds Owner.idle s n' w w' k e h = ground (arith, k.node)
run_fresh-Holds Owner.assigning s n' w w' k e h = ground (arith, k.node)
run_fresh-Holds Owner.destroying s n' w w' k e h = ground (arith, k.node)
run_fresh-Holds Owner.gone s n' w w' k e h = ground (arith, k.node)

pub at_owner : (s : System) (o : Owner) → s.owner ≡ o → Inv s → Holds o s
at_owner s o e v = subst (λ o. Holds o s) e v.holds

-- What the owner's `stop` leaves.
pub stop_leaves :
    (n n' : Node)
    → stop n ≡ done n'
    → (n'.is_running ≡ false) × (n'.heartbeat_thread ≡ n.heartbeat_thread)
unfolding stop
stop_leaves n n' e = ground arith

stop-Inv :
    (s t : System) (o : Outcome Node)
    → stop s.node ≡ o
    → s.owner ≡ Owner.idle
    → done t ≡ put_node s o
    → Inv s
    → Inv t
stop-Inv s t (done n) stopped e p v =
    let h = at_owner s Owner.idle e v in
    let k = stop_leaves s.node n stopped in ground (arith, v.thread)
stop-Inv s t null_dereference stopped e p v = cc

destroy-Inv :
    (s t : System) (o : Outcome Node)
    → stop s.node ≡ o
    → s.owner ≡ Owner.idle
    → done t ≡ destroyed s o
    → Inv s
    → Inv t
destroy-Inv s t (done n) stopped e p v =
    let h = at_owner s Owner.idle e v in
    let k = stop_leaves s.node n stopped in ground (arith, v.thread)
destroy-Inv s t null_dereference stopped e p v = cc

pub run_current-Inv :
    (s t : System) (w : HeartbeatThread) (u : Turn) (o : Outcome (Node × HeartbeatThread))
    → phase s.node w u ≡ o
    → s.current ≡ some w
    → done t ≡ put_current s o
    → Inv s
    → Inv t
run_current-Inv s t w u (done (n', w')) ran e p v =
    let k = phase-Keeps s.node n' w w' u ran in
    let h = run_current-Holds s.owner s n' w w' k e v.holds in
    let v' : Inv (record s { node = n'; current = some w' }) = record {
      thread = ground (arith, k.node, v.thread);
      holds = h;
    } in
    subst Inv (cc) v'
run_current-Inv s t w u null_dereference ran e p v = cc

pub run_fresh-Inv :
    (s t : System) (w : HeartbeatThread) (u : Turn) (o : Outcome (Node × HeartbeatThread))
    → phase s.node w u ≡ o
    → s.fresh ≡ some w
    → done t ≡ put_fresh s o
    → Inv s
    → Inv t
run_fresh-Inv s t w u (done (n', w')) ran e p v =
    let k = phase-Keeps s.node n' w w' u ran in
    let h = run_fresh-Holds s.owner s n' w w' k e v.holds in
    let v' : Inv (record s { node = n'; fresh = some w' }) = record {
      thread = ground (arith, k.node, v.thread);
      holds = h;
    } in
    subst Inv (cc) v'
run_fresh-Inv s t w u null_dereference ran e p v = cc

pub Step-Inv : {s t : System} → Step s (done t) → Inv s → Inv t
unfolding start
Step-Inv {s} {t} (refuse_start answer e off refused p) v =
    let h = at_owner s Owner.idle e v in ground (arith, v.thread)
Step-Inv {s} {t} (accept_start answer e off accepted p) v =
    let h = at_owner s Owner.idle e v in ground (arith, v.thread)
Step-Inv {s} {t} (stop_node e p) v = stop-Inv s t (stop s.node) refl e p v
Step-Inv {s} {t} (destroy_node e p) v = destroy-Inv s t (stop s.node) refl e p v
Step-Inv {s} {t} (assign e j p) v =
    let h = at_owner s Owner.assigning e v in ground (arith, v.thread)
Step-Inv {s} {t} (leave e j p) v =
    let h = at_owner s Owner.destroying e v in ground (arith, v.thread)
Step-Inv {s} {t} (run_current w u e p) v = run_current-Inv s t w u (phase s.node w u) refl e p v
Step-Inv {s} {t} (run_fresh w u e p) v = run_fresh-Inv s t w u (phase s.node w u) refl e p v

initial-Inv : (n : Node) → n.is_running ≡ false → n.heartbeat_thread ≡ false → Inv (initial n)
initial-Inv n off idle = ground arith

pub Reach-from : {s t : System} → Reach s t → Inv s → Inv t
Reach-from here v = v
Reach-from (next r st) v = Step-Inv st (Reach-from r v)

-- Whatever the owner of a new node calls and however its heartbeat threads are scheduled: between
-- two calls there is at most the one thread, whose stop token nobody has set, and a running node
-- has it, its stub and its registration; while start waits for the thread it replaces, that one is
-- asked to stop, the new one is not, and the stub is there; in the destructor and behind it there
-- is no second thread and the one is asked to stop, and behind it that one has ended.
pub Reach-Inv :
    (id address : String) (info : NodeInfo) {s : System}
    → Reach (initial (new_node id address info)) s
    → Inv s
unfolding new_node
Reach-Inv id address info r = Reach-from r (initial-Inv (new_node id address info) refl refl)
