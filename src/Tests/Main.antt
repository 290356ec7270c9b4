-- ===== src/Tests/Main.antt =====
-- The logger, the entry points and the error codes at concrete inputs. The registry of spdlog is the
-- set of the names that it holds.
use d_ro_cm.Base.{
  ℕ, leb, ◌&&◌, arith, String, ◌≡◌, refl, Bool, true, false, List, [], ◌∷◌, Option, none, some,
  if◌then◌else◌, ◌==◌, eq_refl, inl, arith,
}
use d_ro_cm.Base.Bytes.{codes}
use d_ro_cm.Registry.HealthChecker.{Round}
use d_ro_cm.Registry.NodeTable.History.{Call}
use d_ro_cm.Logger.{Spdlog, Logger, Level, Files, default_options}
use d_ro_cm.Logger.Lifecycle
use d_ro_cm.Logger.FileName.{file_name}
use d_ro_cm.Main.{ReturnsWith, all}
use d_ro_cm.Main.EntryPoint
use d_ro_cm.Main.RegistryServer
use d_ro_cm.Main.RegistryServer.Order
use d_ro_cm.Main.RegistryServer.Forgets
use d_ro_cm.ErrorCodes.{
  cases, of_text, of_value, error_code_to_string, of_text-error_code_to_string,
}
use d_ro_cm.Tests.Node

abbrev pub Names : Type 0
Names = String → Bool

abbrev pub with_name : Names → String → Bool → Names
with_name r name held = λ n. if n == name then held else r n

abbrev pub register : Names → String → Option Names
register r name = if r name then none else some (with_name r name true)

pub register_free :
    (r : Names) (name : String)
    → r name ≡ false
    → (r' : Names) × (register r name ≡ some r') × (r' name ≡ true)
register_free r name h = (with_name r name true, rw h refl, rw (eq_refl name) refl)

pub register_taken : (r : Names) (name : String) → r name ≡ true → register r name ≡ none
register_taken r name h = rw h refl

pub accepts_lem :
    (queue_size threads : ℕ)
    → (leb 1 threads && leb threads 1000) ≡ (leb 1 threads && leb threads 1000 && true)
accepts_lem queue_size threads = ground arith

abbrev pub spdlog : Spdlog Names
spdlog = record {
  holds = λ r name. r name;
  register_logger = register;
  drop = λ r name. with_name r name false;
  shutdown = λ r. λ name. false;
  register_free = register_free;
  register_taken = register_taken;
  accepts_pool = λ queue_size threads. leb 1 threads && leb threads 1000;
  fits_queue = λ queue_size. true;
  accepts_pool_lem = accepts_lem;
  fits_default = refl;
  shutdown_free = λ r name. refl;
}

abbrev pub unset : Logger Names
unset = record { instance_set = false; registry = λ name. false; events = [] }

abbrev pub writable : Files
writable = record { has_directory = true; has_file = true }

abbrev read_only : Files
read_only = record { has_directory = true; has_file = false }

abbrev session : List Lifecycle.Call
session =
    Lifecycle.Call.init_logger default_options read_only
    ∷ Lifecycle.Call.init_logger (record default_options { async_thread_count = 0 }) writable
    ∷ Lifecycle.Call.init_logger default_options writable
    ∷ Lifecycle.Call.log_message Level.info "up"
    ∷ Lifecycle.Call.shutdown_logger
    ∷ Lifecycle.Call.init_logger default_options writable
    ∷ []

file_name_run : file_name (codes "src/utils/logger.cpp") ≡ some (codes "logger.cpp")
unfolding file_name
file_name_run = refl

entry_point_run :
    let (passed, end) = EntryPoint.main spdlog writable (EntryPoint.started unset (λ q. false)) in
    ReturnsWith 0 EntryPoint.IsClean end × (all EntryPoint.is_safe passed ≡ true)
entry_point_run =
    EntryPoint.main_returns spdlog writable unset (λ q. false) (refl, refl) (refl, refl)

abbrev round : Round
round = record {
  stop_at_head = false;
  while_asleep = Call.heartbeat "arm_01" 1 2 3 8 ∷ [];
  stop_after_sleep = false;
  between = [];
}

abbrev served : RegistryServer.Inputs
served = record {
  files = writable;
  is_bound = true;
  before_checker = Call.register Node.info "arm_01_7" 5 ∷ [];
  rounds = round ∷ round ∷ record round { stop_at_head = true } ∷ [];
}

main_stops_example :
    let (passed, end) = RegistryServer.main spdlog served (RegistryServer.started unset) in
    ReturnsWith 0 (Order.IsStopped (Order.final_table served)) end
    × (all Order.is_safe passed ≡ true)
main_stops_example = Order.main_stops spdlog served unset (refl, refl) (refl, refl) refl

reads_back_full : of_text cases (error_code_to_string 2002) ≡ of_value cases 2002
reads_back_full = of_text-error_code_to_string 2002

-- The node beats in the first round and then no more.
abbrev still : Round
still = record round { while_asleep = [] }

abbrev lost : RegistryServer.Inputs
lost = record served {
  rounds = round ∷ still ∷ still ∷ still ∷ record still { stop_at_head = true } ∷ [];
}

lost-IsForgetful : Forgets.IsForgetful "arm_01" lost
lost-IsForgetful = record {
  earlier = round ∷ [];
  silent = still ∷ still ∷ still ∷ [];
  last = record still { stop_at_head = true };
  rounds = refl;
  before = (tt, tt);
  full = ((refl, refl, ((tt, tt), tt)), tt);
  still = ((refl, refl, (tt, tt)), ((refl, refl, (tt, tt)), ((refl, refl, (tt, tt)), tt)));
  enough = omega arith;
  ends = inl refl;
}

main_forgets_example :
    ReturnsWith 0
      (Forgets.LacksNode "arm_01")
      (RegistryServer.main spdlog lost (RegistryServer.started unset)).1
main_forgets_example =
    Forgets.main_forgets spdlog lost unset "arm_01" (refl, refl) (refl, refl) refl lost-IsForgetful
