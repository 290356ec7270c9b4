-- ===== src/Node/Threads/Restart.antt =====
-- A second `start` waits for the thread that it replaces, and returns.
use d_ro_cm.Base.{ℕ, ◌+◌, ◌-◌, ◌≤◌, ◌≡◌, refl, true, List, [], ◌∷◌, Option, none, some, arith}
use d_ro_cm.Node.{Node, Outcome, done, null_dereference}
use d_ro_cm.Node.Loop.{Turn}
use d_ro_cm.Node.Threads.{
  HeartbeatThread, phase, Owner, System, put_current, put_fresh, IsJoinable, assigned, Step, assign,
}
use d_ro_cm.Node.Threads.Invariant.{Inv, Step-Inv, at_owner, run_current-Inv, run_fresh-Inv}
use d_ro_cm.Node.Threads.Ends.{left_of, phase-ne-fault, phase-left}

-- While the owner waits in a join: whose step it is.
pub data Runner : Type 0 where
  old new : Runner

abbrev run_old : System → Turn → Option HeartbeatThread → Outcome System
run_old s u none = done s
run_old s u (some w) = put_current s (phase s.node w u)

abbrev run_new : System → Turn → Option HeartbeatThread → Outcome System
run_new s u none = done s
run_new s u (some w) = put_fresh s (phase s.node w u)

abbrev pub run_thread : System → Runner → Turn → Outcome System
run_thread s Runner.old u = run_old s u s.current
run_thread s Runner.new u = run_new s u s.fresh

abbrev bind : Outcome System → (System → Outcome System) → Outcome System
bind (done s) k = k s
bind null_dereference k = null_dereference

unfoldable pub run_threads : System → List (Runner × Turn) → Outcome System
run_threads s [] = done s
run_threads s ((r, u) ∷ rest) = bind (run_thread s r u) (λ s'. run_threads s' rest)

abbrev pub weight : Runner → ℕ
weight Runner.old = 1
weight Runner.new = 0

-- The steps of the old thread in a schedule.
abbrev pub count_old : List (Runner × Turn) → ℕ
count_old [] = 0
count_old ((r, u) ∷ rest) = weight r + count_old rest

-- What one step keeps while `start` waits in its assignment.
record IsPatient (s s' : System) (r : Runner) : Type 0 where
  inv : Inv s'
  owner : s'.owner ≡ Owner.assigning
  nearer : left_of s'.current ≤ left_of s.current - weight r

old_waits :
    (s : System) (u : Turn) (w : HeartbeatThread) (o : Outcome (Node × HeartbeatThread))
    → Inv s
    → s.owner ≡ Owner.assigning
    → s.current ≡ some w
    → phase s.node w u ≡ o
    → (s' : System) × (put_current s o ≡ done s') × IsPatient s s' Runner.old
old_waits s u w (done (n', w')) v e c ran =
    let h = at_owner s Owner.assigning e v in
    (
      record s { node = n'; current = some w' },
      refl,
      record {
        inv = run_current-Inv s _ w u (done (n', w')) ran c refl v;
        owner = e;
        nearer = ground (arith, phase-left s.node n' w w' u);
      },
    )
old_waits s u w null_dereference v e c ran =
    let h = at_owner s Owner.assigning e v in absurd (phase-ne-fault s.node w u (ground arith) ran)

new_waits :
    (s : System) (u : Turn) (w : HeartbeatThread) (o : Outcome (Node × HeartbeatThread))
    → Inv s
    → s.owner ≡ Owner.assigning
    → s.fresh ≡ some w
    → phase s.node w u ≡ o
    → (s' : System) × (put_fresh s o ≡ done s') × IsPatient s s' Runner.new
new_waits s u w (done (n', w')) v e c ran = (
  record s { node = n'; fresh = some w' },
  refl,
  record {
    inv = run_fresh-Inv s _ w u (done (n', w')) ran c refl v;
    owner = e;
    nearer = ground arith;
  },
)
new_waits s u w null_dereference v e c ran =
    let h = at_owner s Owner.assigning e v in absurd (phase-ne-fault s.node w u (ground arith) ran)

run_old_waits :
    (s : System) (u : Turn) (o : Option HeartbeatThread)
    → Inv s
    → s.owner ≡ Owner.assigning
    → s.current ≡ o
    → (s' : System) × (run_old s u o ≡ done s') × IsPatient s s' Runner.old
run_old_waits s u none v e c = (s, refl, record { inv = v; owner = e; nearer = ground arith })
run_old_waits s u (some w) v e c = old_waits s u w (phase s.node w u) v e c refl

run_new_waits :
    (s : System) (u : Turn) (o : Option HeartbeatThread)
    → Inv s
    → s.owner ≡ Owner.assigning
    → s.fresh ≡ o
    → (s' : System) × (run_new s u o ≡ done s') × IsPatient s s' Runner.new
run_new_waits s u none v e c = (s, refl, record { inv = v; owner = e; nearer = omega arith })
run_new_waits s u (some w) v e c = new_waits s u w (phase s.node w u) v e c refl

thread_waits :
    (s : System) (r : Runner) (u : Turn)
    → Inv s
    → s.owner ≡ Owner.assigning
    → (s' : System) × (run_thread s r u ≡ done s') × IsPatient s s' r
thread_waits s Runner.old u v e = run_old_waits s u s.current v e refl
thread_waits s Runner.new u v e = run_new_waits s u s.fresh v e refl

run_threads_waits :
    (s : System) (rest : List (Runner × Turn))
    → Inv s
    → s.owner ≡ Owner.assigning
    → (s' : System) × (run_threads s rest ≡ done s')
      × Inv s'
      × (s'.owner ≡ Owner.assigning)
      × (left_of s'.current ≤ left_of s.current - count_old rest)
unfolding run_threads
run_threads_waits s [] v e = (s, refl, v, e, omega arith)
run_threads_waits s ((r, u) ∷ rest) v e =
    let (t, ran, k) = thread_waits s r u v e in
    let (s', rests, v', e', fewer) = run_threads_waits t rest k.inv k.owner in
    (s', rw ran rests, v', e', omega (arith, k.nearer))

IsJoinable-left : (o : Option HeartbeatThread) → left_of o ≡ 0 → IsJoinable o
IsJoinable-left none h = tt
IsJoinable-left (some w) h = ground arith

left_of-le : (o : Option HeartbeatThread) → left_of o ≤ 2
left_of-le none = omega arith
left_of-le (some w) = ground arith

-- While start waits for the thread that it replaces, no schedule of the old and the new thread
-- faults; and once the old one has taken two steps start can return, with the node running.
pub restart_returns :
    (s : System) (rest : List (Runner × Turn))
    → Inv s
    → s.owner ≡ Owner.assigning
    → 2 ≤ count_old rest
    → (s' : System) × (run_threads s rest ≡ done s')
      × Step s' (done (assigned s'))
      × Inv (assigned s')
      × ((assigned s').node.is_running ≡ true)
restart_returns s rest v e enough =
    let (s', ran, v', e', fewer) = run_threads_waits s rest v e in
    let j = IsJoinable-left s'.current (omega (arith, fewer, left_of-le s.current)) in
    let st = assign e' j refl in (s', ran, st, Step-Inv st v', refl)
