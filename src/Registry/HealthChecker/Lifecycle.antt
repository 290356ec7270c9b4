-- ===== src/Registry/HealthChecker/Lifecycle.antt =====
-- HealthChecker::start and stop: the flag and the thread.
use d_ro_cm.Base.{ℕ, ◌≡◌, refl, true, false, not, List, [], ◌∷◌, arith}
use d_ro_cm.Registry.HealthChecker.{
  HealthChecker, Thread, new_checker, start, stop, destroy, is_checking, is_joinable,
}

-- The calls of the owner.
pub data Command : Type 0 where
  start_checker stop_checker : Command

abbrev pub obey : HealthChecker → Command → HealthChecker
obey h Command.start_checker = (start h).0
obey h Command.stop_checker = stop h

abbrev pub obey_all : HealthChecker → List Command → HealthChecker
obey_all h [] = h
obey_all h (c ∷ cs) = obey_all (obey h c) cs

-- The flag says whether there is a thread.
abbrev pub IsSound : HealthChecker → Type 0
IsSound h = is_joinable h.checker_thread ≡ h.is_running

obey-IsSound : (h : HealthChecker) (c : Command) → IsSound h → IsSound (obey h c)
unfolding start stop
obey-IsSound h Command.start_checker v = ground (arith, v)
obey-IsSound h Command.stop_checker v = ground (arith, v)

pub obey_all-IsSound : (h : HealthChecker) (cs : List Command) → IsSound h → IsSound (obey_all h cs)
obey_all-IsSound h [] v = v
obey_all-IsSound h (c ∷ cs) v = obey_all-IsSound (obey h c) cs (obey-IsSound h c v)

new_checker-IsSound : (interval max : ℕ) → IsSound (new_checker interval max)
unfolding new_checker
new_checker-IsSound interval max = refl

joinable : (t : Thread) → is_joinable t ≡ true → t ≡ Thread.running
joinable Thread.absent h = cc
joinable Thread.running h = refl

not_joinable : (t : Thread) → is_joinable t ≡ false → t ≡ Thread.absent
not_joinable Thread.absent h = refl
not_joinable Thread.running h = cc

-- After any starts and stops of a new checker the flag says whether there is a thread; start makes
-- one exactly if there is none and leaves one there, and stop leaves none.
pub obey_all_lem :
    (interval max : ℕ) (cs : List Command)
    → let h = obey_all (new_checker interval max) cs in
      (is_joinable h.checker_thread ≡ h.is_running)
      × ((start h).1 ≡ not (is_joinable h.checker_thread))
      × ((start h).0.checker_thread ≡ Thread.running)
      × ((stop h).checker_thread ≡ Thread.absent)
unfolding start stop
obey_all_lem interval max cs =
    let h = obey_all (new_checker interval max) cs in
    let v = obey_all-IsSound (new_checker interval max) cs (new_checker-IsSound interval max) in
    (
      v,
      ground (arith, v),
      ground (arith, v, joinable h.checker_thread),
      ground (arith, v, not_joinable h.checker_thread),
    )

-- A checker that is destroyed after any starts and stops leaves no thread, and says so.
pub destroy_leaves_none :
    (interval max : ℕ) (cs : List Command)
    → let h = destroy (obey_all (new_checker interval max) cs) in
      (h.checker_thread ≡ Thread.absent) × (is_checking h ≡ false)
unfolding stop
destroy_leaves_none interval max cs = ((obey_all_lem interval max cs).3, ground arith)
