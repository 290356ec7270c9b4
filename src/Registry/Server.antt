-- ===== src/Registry/Server.antt =====
-- The registry server at work: requests are served while the checker's thread (health_checker.cpp)
-- sleeps, and between its two calls on the table that it shares with the service
-- (registry_service.cpp).
pub mod Silent
use d_ro_cm.Base.{
  ℕ, ◌≡◌, refl, ap, ◌∙◌, Bool, Bool-cases, inl, inr, List, [], ◌∷◌, map, if◌then◌else◌,
}
use mathlib.Core.List
use d_ro_cm.Registry.NodeTable.{NodeTable, increment_all_missed_heartbeats, remove_stale_nodes}
use d_ro_cm.Registry.NodeTable.History
use d_ro_cm.Registry.NodeTable.History.{run}
use d_ro_cm.Registry.Service.{RegistryService, heartbeat}
use d_ro_cm.Registry.Service.Shutdown.{Request, serve, serve_all}
use d_ro_cm.Registry.HealthChecker.{Round, check, run_loop}
use d_ro_cm.Registry.Service.Calls.{calls_all, serve_all_calls}

-- A turn of the checker's loop, with the requests that are served meanwhile.
pub record Turn : Type 0 where
  pub stop_at_head : Bool
  pub while_asleep : List Request
  pub stop_after_sleep : Bool
  pub between : List Request

-- The two calls of the checker on the service's table.
abbrev pub missed : RegistryService → RegistryService
missed s = record s { node_table = increment_all_missed_heartbeats s.node_table }

abbrev pub swept : ℕ → RegistryService → RegistryService
swept max s = record s { node_table = (remove_stale_nodes s.node_table max).0 }

-- The service after a turn that runs through.
abbrev pub checked : ℕ → RegistryService → Turn → RegistryService
checked max s u = swept max (serve_all (missed (serve_all s u.while_asleep)) u.between)

unfoldable pub server_loop : ℕ → RegistryService → List Turn → RegistryService
server_loop max s [] = s
server_loop max s (u ∷ us) =
    let asleep = serve_all s u.while_asleep in
    let rest = server_loop max (checked max s u) us in
    if u.stop_at_head then s else if u.stop_after_sleep then asleep else rest

abbrev pub round : Bool → Turn → Round
round flag u = record {
  stop_at_head = u.stop_at_head;
  while_asleep = calls_all flag u.while_asleep;
  stop_after_sleep = u.stop_after_sleep;
  between = calls_all flag u.between;
}

checked-check :
    (max : ℕ) (s : RegistryService) (u : Turn)
    → let r = round s.is_running u in
      ((checked max s u).node_table ≡ check max (run s.node_table r.while_asleep) r.between)
      × ((checked max s u).is_running ≡ s.is_running)
unfolding check
checked-check max s u =
    let a = serve_all s u.while_asleep in
    let (ta, fa) = serve_all_calls s u.while_asleep in
    let (tb, fb) = serve_all_calls (missed a) u.between in
    let during = λ (t : NodeTable) (b : Bool).
      (remove_stale_nodes (run (increment_all_missed_heartbeats t) (calls_all b u.between))
        max).0 in
    (
      ap (λ t. (remove_stale_nodes t max).0) tb
          ∙ ap (during a.node_table) fa
          ∙ ap (λ t. during t s.is_running) ta,
      fb ∙ fa,
    )

-- The table of the server goes through the checker's loop, the requests being the calls that come
-- in between, and no request touches the flag.
pub server_loop-run_loop :
    (max : ℕ) (s : RegistryService) (us : List Turn)
    → ((server_loop max s us).node_table ≡ run_loop max s.node_table (map (round s.is_running) us))
      × ((server_loop max s us).is_running ≡ s.is_running)
unfolding server_loop run_loop
server_loop-run_loop max s [] = (refl, refl)
server_loop-run_loop max s (u ∷ us) =
    let a = serve_all s u.while_asleep in
    let (ta, fa) = serve_all_calls s u.while_asleep in
    let (table, flag) = checked-check max s u in
    let (tr, fr) = server_loop-run_loop max (checked max s u) us in
    let rest =
      tr
      ∙ ap (λ b. run_loop max (checked max s u).node_table (map (round b) us)) flag
      ∙ ap (λ t. run_loop max t (map (round s.is_running) us)) table in
    elim (Bool-cases u.stop_at_head) [
      | inl h ↦ rw h (refl, refl)
      | inr h ↦ elim (Bool-cases u.stop_after_sleep) [
        | inl k ↦ rw (h, k) (ta, fa)
        | inr k ↦ rw (h, k) (rest, fr ∙ flag)
      ]
    ]
