-- ===== src/Node/Threads/Ends.antt =====
-- A heartbeat thread whose object has a stub does not fault, and one that is asked to stop ends.
use d_ro_cm.Base.{ℕ, ◌-◌, ◌≤◌, ◌≡◌, ◌≢◌, refl, Bool, true, Option, none, some, arith}
use d_ro_cm.Node.{Node, Outcome, done, null_dereference}
use d_ro_cm.Node.Loop.{State, Turn}
use d_ro_cm.Node.Threads.{Pc, HeartbeatThread, phase, moved, phase_at, state_of}

-- The steps that a thread may take until it has ended, once it is asked to stop.
abbrev pub left : Pc → ℕ
left Pc.head = 1
left Pc.sleeping = 1
left Pc.waiting = 2
left Pc.ended = 0

abbrev pub left_of : Option HeartbeatThread → ℕ
left_of none = 0
left_of (some w) = left w.pc

Outcome-cases : {A : Type 0} (o : Outcome A) → o ≢ null_dereference → (a : A) × (o ≡ done a)
Outcome-cases (done a) h = (a, refl)
Outcome-cases null_dereference h = absurd (h refl)

phase_at-ne-fault :
    (pc : Pc) (s : State) (b : Bool) (u : Turn)
    → s.node.registry_stub ≡ true
    → phase_at pc s b u ≢ null_dereference
phase_at-ne-fault Pc.head s b u stub e = cc
phase_at-ne-fault Pc.sleeping s b u stub e = ground arith
phase_at-ne-fault Pc.waiting s b u stub e = ground arith
phase_at-ne-fault Pc.ended s b u stub e = cc

phase_at-left :
    (pc pc' : Pc) (s s' : State) (b : Bool) (u : Turn)
    → b ≡ true
    → phase_at pc s b u ≡ done (s', pc')
    → left pc' ≤ left pc - 1
phase_at-left Pc.head pc' s s' b u asked e = ground arith
phase_at-left Pc.sleeping pc' s s' b u asked e = ground arith
phase_at-left Pc.waiting pc' s s' b u asked e = ground arith
phase_at-left Pc.ended pc' s s' b u asked e = ground arith

pub phase-ne-fault :
    (n : Node) (w : HeartbeatThread) (u : Turn)
    → n.registry_stub ≡ true
    → phase n w u ≢ null_dereference
unfolding phase
phase-ne-fault n w u stub e =
    ground (arith, phase_at-ne-fault w.pc (state_of n w) w.stop_requested u stub)

moved-left :
    (n n' : Node) (w w' : HeartbeatThread) (u : Turn) (o : Outcome (State × Pc))
    → w.stop_requested ≡ true
    → phase_at w.pc (state_of n w) w.stop_requested u ≡ o
    → moved w o ≡ done (n', w')
    → left w'.pc ≤ left w.pc - 1
moved-left n n' w w' u (done (s, pc)) asked e h =
    ground (arith, phase_at-left w.pc pc (state_of n w) s w.stop_requested u asked e)
moved-left n n' w w' u null_dereference asked e h = cc

-- A thread that is asked to stop comes nearer to its end with each step.
pub phase-left :
    (n n' : Node) (w w' : HeartbeatThread) (u : Turn)
    → w.stop_requested ≡ true
    → phase n w u ≡ done (n', w')
    → left w'.pc ≤ left w.pc - 1
unfolding phase
phase-left n n' w w' u asked e =
    moved-left n n' w w' u (phase_at w.pc (state_of n w) w.stop_requested u) asked refl e
