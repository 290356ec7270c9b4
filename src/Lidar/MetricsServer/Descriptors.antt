-- ===== src/Lidar/MetricsServer/Descriptors.antt =====
-- The descriptors of the metrics thread: each is used while it is open, and closed once.
use d_ro_cm.Base.{
  ℕ, ◌≡◌, refl, Bool, true, false, Bool-cases, inl, inr, List, [], ◌∷◌, Option, none, some, not,
  ◌&&◌, if◌then◌else◌,
}
use d_ro_cm.Base.Bytes.{Bytes}
use d_ro_cm.Lidar.MetricsServer.{Event, Setup, Turn, Exit, serve, metrics_thread}

-- Which descriptors are open.
pub record Sockets : Type 0 where
  pub server : Bool
  pub client : Bool

-- The descriptors after an event, if it uses and closes only what is open, and opens only what is
-- closed.
abbrev using : Bool → Sockets → Option Sockets
using is_open d = if is_open then some d else none

abbrev pub on_event : Sockets → Event → Option Sockets
on_event d Event.open_server = using (not d.server) (record d { server = true })
on_event d Event.set_option = using d.server d
on_event d Event.bind = using d.server d
on_event d Event.listen = using d.server d
on_event d Event.close_server = using d.server (record d { server = false })
on_event d Event.failed_accept = using d.server d
on_event d Event.open_client = using (d.server && not d.client) (record d { client = true })
on_event d Event.read = using d.client d
on_event d (Event.write text) = using d.client d
on_event d Event.close_client = using d.client (record d { client = false })

abbrev and_then : Option Sockets → (Sockets → Option Sockets) → Option Sockets
and_then none k = none
and_then (some d) k = k d

abbrev pub track : Sockets → List Event → Option Sockets
track d [] = some d
track d (e ∷ es) = and_then (on_event d e) (λ d'. track d' es)

abbrev pub all_closed : Sockets
all_closed = record { server = false; client = false }

abbrev pub is_serving : Exit → Bool
is_serving Exit.serving = true
is_serving Exit.returned = false

-- The server's descriptor is open exactly while the thread serves; the clients' are closed.
abbrev pub at_exit : Exit → Sockets
at_exit x = record { server = is_serving x; client = false }

module _ (avg_us avg_ms : ℕ → ℕ → Bytes) where
  serve_tracked :
      (us : List Turn)
      → track (at_exit Exit.serving) (serve avg_us avg_ms us).0
        ≡ some (at_exit (serve avg_us avg_ms us).1)
  unfolding serve
  serve_tracked [] = refl
  serve_tracked (u ∷ us) = elim (Bool-cases u.running) [
    | inl on ↦ elim (Bool-cases u.accepted) [
      | inl came ↦ rw (on, came) (serve_tracked us)
      | inr failed ↦ rw (on, failed) (serve_tracked us)
    ]
    | inr off ↦ rw off refl
  ]

  -- Whatever the system calls answer, the metrics thread uses and closes only open descriptors and
  -- opens only closed ones; while it serves, the server's alone is open between two turns, and when
  -- it has returned none is.
  pub track-metrics_thread :
      (s : Setup) (us : List Turn)
      → track all_closed (metrics_thread avg_us avg_ms s us).0
        ≡ some (at_exit (metrics_thread avg_us avg_ms s us).1)
  unfolding metrics_thread
  track-metrics_thread s us = elim (Bool-cases s.has_socket) [
    | inr none_made ↦ rw none_made refl
    | inl made ↦ elim (Bool-cases s.is_bound) [
      | inr unbound ↦ rw (made, unbound) refl
      | inl bound ↦ elim (Bool-cases s.is_listening) [
        | inr deaf ↦ rw (made, bound, deaf) refl
        | inl listens ↦ rw (made, bound, listens) (serve_tracked us)
      ]
    ]
  ]
