-- ===== src/Main/RegistryServer.antt =====
-- main of examples/registry_server.cpp. What other threads do is an argument: the handlers' calls on
-- the table before the checker starts, and the rounds of the checker's thread until it is stopped, with
-- the handlers' calls among them. The main thread's wait for a signal leaves no trace.
pub mod Order
pub mod Forgets
use d_ro_cm.Base.{
  ℕ, String, ◌≡◌, refl, Bool, true, false, ◌&&◌, not, List, [], ◌∷◌, Option, none, some,
  if◌then◌else◌,
}
use d_ro_cm.Logger.{Level, log, Spdlog, Logger, Level, Files, init, shutdown, log, default_options}
use d_ro_cm.Logger.Lifecycle.{IsFree, IsWritable, init_free}
use d_ro_cm.Registry.NodeTable.{NodeTable, get_node_count, new_table}
use d_ro_cm.Registry.NodeTable.History.{Call, run}
use d_ro_cm.Registry.Service
use d_ro_cm.Registry.Service.{RegistryService, default_service}
use d_ro_cm.Registry.HealthChecker
use d_ro_cm.Registry.HealthChecker.{HealthChecker, Round, new_checker, is_joinable, run_loop}
use d_ro_cm.Main.{
  Step, execute, all, logged, info, initialized, exit_with, next, ReturnsWith, Server, is_serving,
  is_shut_down, built, server_shutdown, server_wait,
}

pub record Inputs : Type 0 where
  pub files : Files
  pub is_bound : Bool
  pub before_checker : List Call
  pub rounds : List Round

pub record Process (R : Type 0) : Type 0 where
  pub logger : Logger R
  pub registry_service : Option RegistryService
  pub health_checker : Option HealthChecker
  pub server : Server
  pub node_count : Option ℕ

abbrev pub started : {R : Type 0} → Logger R → Process R
started l = record {
  logger = l;
  registry_service = none;
  health_checker = none;
  server = Server.not_built;
  node_count = none;
}

-- The handlers that run from now on, until the checker starts.
abbrev handle : List Call → RegistryService → RegistryService
handle calls s = record s { node_table = run s.node_table calls }

-- A call that finds nothing to do warns.
abbrev level_of : Bool → Level
level_of useful = if useful then Level.info else Level.warn

abbrev start_message : Bool → String
start_message is_new =
    if is_new
    then "[HealthChecker] Background thread started"
    else "[HealthChecker] Already running, ignoring start request"

abbrev shutdown_message : Bool → String
shutdown_message running =
    if running
    then "[Registry] Service shutdown initiated - rejecting new RPC requests"
    else "[Registry] Shutdown already called, ignoring"

-- What the checker's thread has done by the time it is joined.
abbrev checked : Inputs → HealthChecker → RegistryService → RegistryService
checked i c s = record s { node_table = run_loop c.max_missed_heartbeats s.node_table i.rounds }

module _ {R : Type 0} where
  abbrev pub says : String → Process R → Step (Process R)
  says message p = info message p.logger (λ l. Step.goes (record p { logger = l }))

  -- Both constructors log.
  abbrev pub make_service : Process R → Step (Process R)
  make_service p =
      info "[Registry] Service initialized" p.logger
        (λ l. Step.goes (record p { logger = l; registry_service = some (default_service) }))

  abbrev pub make_checker : Process R → Option RegistryService → Step (Process R)
  make_checker p none = Step.null_dereference
  make_checker p (some s) =
      info "[HealthChecker] Initialized" p.logger
        (λ l. Step.goes (record p { logger = l; health_checker = some (new_checker 1000 3) }))

  abbrev pub build : Inputs → Process R → Option RegistryService → Step (Process R)
  build i p none = Step.null_dereference
  build i p (some s) =
      let calls = if i.is_bound then i.before_checker else [] in
      Step.goes (record p { server = built i.is_bound; registry_service = some (handle calls s) })

  abbrev pub start_checker : Process R → Option HealthChecker → Step (Process R)
  start_checker p none = Step.null_dereference
  start_checker p (some c) =
      let (c', is_new) = HealthChecker.start c in
      logged (log (level_of is_new) (start_message is_new) p.logger)
        (λ l. Step.goes (record p { logger = l; health_checker = some c' }))

  abbrev pub shutdown_service : Process R → Option RegistryService → Step (Process R)
  shutdown_service p none = Step.null_dereference
  shutdown_service p (some s) =
      logged (log (level_of s.is_running) (shutdown_message s.is_running) p.logger)
        (λ l. Step.goes (record p { logger = l; registry_service = some (Service.shutdown s) }))

  abbrev joined : Inputs → Process R → HealthChecker → Option RegistryService → Step (Process R)
  joined i p c none = Step.null_dereference
  joined i p c (some s) = Step.goes (record p {
    health_checker = some (HealthChecker.stop c);
    registry_service = some (if is_joinable c.checker_thread then checked i c s else s);
  })

  -- HealthChecker::stop.
  abbrev pub stop_checker : Inputs → Process R → Option HealthChecker → Step (Process R)
  stop_checker i p none = Step.null_dereference
  stop_checker i p (some c) =
      if c.is_running
      then info "[HealthChecker] Shutting down background thread" p.logger
          (λ l. joined i (record p { logger = l }) c p.registry_service)
      else Step.goes (record p { health_checker = some (HealthChecker.stop c) })

  -- The destructor of its unique_ptr.
  abbrev pub destroy_checker : Inputs → Process R → Option HealthChecker → Step (Process R)
  destroy_checker i p none = Step.goes p
  destroy_checker i p (some c) = stop_checker i p (some c)

  abbrev pub count_nodes : Process R → Option RegistryService → Step (Process R)
  count_nodes p none = Step.null_dereference
  count_nodes p (some s) = Step.goes (record p { node_count = some (get_node_count s.node_table) })

  module _ (spdlog : Spdlog R) (i : Inputs) where
    abbrev pub statements : List (Process R → Step (Process R))
    statements =
        (λ p.
          initialized (init spdlog default_options i.files p.logger)
            (λ l. Step.goes (record p { logger = l })))
        ∷ says "=========================================="
        ∷ says "  D-RoCM Registry Server (Master Node)"
        ∷ says "=========================================="
        ∷ make_service
        ∷ (λ p. make_checker p p.registry_service)
        ∷ (λ p. build i p p.registry_service)
        ∷ says "[Registry] Server listening"
        ∷ (λ p. start_checker p p.health_checker)
        ∷ says "[Registry] Shutting down..."
        ∷ (λ p. shutdown_service p p.registry_service)
        ∷ (λ p. server_shutdown p.server (λ s. record p { server = s }))
        ∷ (λ p. server_wait p.server p)
        ∷ (λ p. stop_checker i p p.health_checker)
        ∷ (λ p. count_nodes p p.registry_service)
        ∷ says "[Registry] Server stopped. Final node count"
        ∷ (λ p. Step.goes (record p { logger = shutdown spdlog p.logger }))
        ∷ (λ p. exit_with 0 (destroy_checker i p p.health_checker))
        ∷ []

    abbrev pub main : Process R → List (Process R) × Step (Process R)
    main p = execute statements p
