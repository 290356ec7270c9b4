-- ===== src/Node/Threads/Destructor.antt =====
-- Node::~Node while the heartbeat thread is there: `stop` resets the stub, and the destructor of
-- heartbeat_thread_ asks the thread to stop and joins it.
use d_ro_cm.Base.{◌≡◌, ◌≢◌, refl, true, false, some, arith}
use d_ro_cm.Node.{Node, done, null_dereference, stop}
use d_ro_cm.Node.Loop.{Turn}
use d_ro_cm.Node.Threads.{
  Pc, HeartbeatThread, phase, Owner, System, destroyed, Step, leave, run_current,
}
use d_ro_cm.Node.Threads.Invariant.{Inv, at_owner}

-- A thread without a stub that is asked to stop.
phase-waiting :
    (n : Node) (w : HeartbeatThread) (u : Turn)
    → n.registry_stub ≡ false
    → w.pc ≡ Pc.waiting
    → phase n w u ≡ null_dereference
unfolding phase
phase-waiting n w u no_stub waits = ground arith

phase-asked :
    (n : Node) (w : HeartbeatThread) (u : Turn)
    → w.stop_requested ≡ true
    → w.pc ≢ Pc.waiting
    → phase n w u ≡ done (n, record w { pc = Pc.ended })
unfolding phase
phase-asked n w u asked moves = ground arith

-- The destructor of a running node that was not stopped before, with a thread: if that thread waits
-- before a reconnection, its registration then faults, as the stub is null; otherwise it may end in
-- its next step, and the destructor return.
pub destroy_lem :
    (s : System) (w : HeartbeatThread) (u : Turn)
    → Inv s
    → s.owner ≡ Owner.idle
    → s.node.is_running ≡ true
    → s.node.coro_adapter ≡ true
    → s.current ≡ some w
    → (s' : System) × (destroyed s (stop s.node) ≡ done s')
      × (w.pc ≡ Pc.waiting → Step s' null_dereference)
      × (w.pc ≢ Pc.waiting
          → (t : System) × Step s' (done t) × Step t (done (record t { owner = Owner.gone })))
unfolding stop
destroy_lem s w u v e on adapter c =
    let h = at_owner s Owner.idle e v in
    let n = record s.node {
      coro_adapter = false;
      registry_stub = false;
      registry_channel = false;
      is_running = false;
      is_registered = false;
    } in
    let asked = record w { stop_requested = true } in
    let s' = record s { node = n; current = some asked; owner = Owner.destroying } in
    let t = record s' { current = some (record asked { pc = Pc.ended }) } in
    (
      s',
      ground arith,
      (λ p. run_current asked u refl (rw (phase-waiting n asked u refl p))),
      λ p. (t, run_current asked u refl (rw (phase-asked n asked u refl p)), leave refl refl refl),
    )
