-- ===== src/Main/RegistryServer/Order.antt =====
-- The order in which main of the registry server starts and stops its parts.
use d_ro_cm.Base.{◌≡◌, refl, Bool, true, false, ◌&&◌, ◌||◌, not, Option, none, some}
use d_ro_cm.Logger.{Spdlog, Logger, log, shutdown}
use d_ro_cm.Logger.Lifecycle.{IsFree, IsWritable, init_free}
use d_ro_cm.Registry.NodeTable.{NodeTable, get_node_count, new_table}
use d_ro_cm.Registry.NodeTable.History.{run}
use d_ro_cm.Registry.Service
use d_ro_cm.Registry.Service.{RegistryService, new_service}
use d_ro_cm.Registry.HealthChecker
use d_ro_cm.Registry.HealthChecker.{HealthChecker, new_checker, is_joinable, run_loop}
use d_ro_cm.Main.{Step, all, implies, ReturnsWith, is_serving, is_shut_down}
use d_ro_cm.Main.RegistryServer.{Inputs, Process, started, main}

abbrev has_thread : Option HealthChecker → Bool
has_thread none = false
has_thread (some c) = is_joinable c.checker_thread

abbrev has_service : Option RegistryService → Bool
has_service none = false
has_service (some s) = true

abbrev accepts : Option RegistryService → Bool
accepts none = false
accepts (some s) = s.is_running

-- While a thread or a handler may log there is the logger; while handlers may run there is the service;
-- and the server stops only when the service has.
abbrev pub is_safe : {R : Type 0} → Process R → Bool
is_safe p =
    implies (has_thread p.health_checker || is_serving p.server) p.logger.instance_set
    && implies (has_thread p.health_checker || is_serving p.server) (has_service p.registry_service)
    && implies (is_shut_down p.server) (not (accepts p.registry_service))

-- The table at the end.
abbrev pub final_table : Inputs → NodeTable
final_table i = run_loop 3 (run (new_table 10000) i.before_checker) i.rounds

abbrev pub IsStopped : {R : Type 0} → NodeTable → Process R → Type 0
IsStopped t p =
    (p.logger.instance_set ≡ false)
    × (has_thread p.health_checker ≡ false)
    × (is_shut_down p.server ≡ true)
    × (p.registry_service ≡ some (record { node_table = t; is_running = false }))
    × (p.node_count ≡ some (get_node_count t))

-- If the logger's name is free, its file can be written and the address can be bound, the
-- registry's main returns 0 with the logger, the server, the service and the checker's thread shut
-- down, and counts the nodes of the table that the checker's rounds leave; on the way the logger
-- and the service are there while the checker's thread runs or the server serves, and the server is
-- not shut down before the service refuses.
pub main_stops :
    {R : Type 0} (spdlog : Spdlog R) (i : Inputs) (l : Logger R)
    → IsFree spdlog l
    → IsWritable i.files
    → i.is_bound ≡ true
    → let (passed, end) = main spdlog i (started l) in
      ReturnsWith 0 (IsStopped (final_table i)) end × (all is_safe passed ≡ true)
unfolding log shutdown new_service new_checker Service.shutdown HealthChecker.start
    HealthChecker.stop
main_stops spdlog i l free writable bound =
    let (r, es, begun) = init_free spdlog i.files l free writable in
    rw (begun, bound) ((refl, (refl, refl, refl, refl, refl)), refl)

-- If the address cannot be bound, and the logger starts, the registry's main ends by dereferencing
-- the null server.
pub main_unbound :
    {R : Type 0} (spdlog : Spdlog R) (i : Inputs) (l : Logger R)
    → IsFree spdlog l
    → IsWritable i.files
    → i.is_bound ≡ false
    → (main spdlog i (started l)).1 ≡ Step.null_dereference
unfolding log shutdown new_service new_checker Service.shutdown HealthChecker.start
    HealthChecker.stop
main_unbound spdlog i l free writable unbound =
    let (r, es, begun) = init_free spdlog i.files l free writable in rw (begun, unbound) refl
