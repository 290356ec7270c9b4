-- ===== src/Logger.antt =====
-- src/utils/logger.h and logger.cpp: Logger, and the macros DROCM_LOG_*. The calls of spdlog and of
-- the file system are recorded as events; what spdlog's registry of loggers does, and which
-- thread pools it accepts, is the parameter Spdlog, and whether the file system throws is an argument.
pub mod Lifecycle
pub mod FileName
use Prim.Native.String.{◌++◌}
use d_ro_cm.Base.{
  ℕ, String, ◌≡◌, Bool, true, false, List, [], ◌∷◌, Option, none, some, if◌then◌else◌, not, leb,
  ◌&&◌,
}
use mathlib.Core.List

-- spdlog, as documented. Its registry: a name can be registered once, `drop` takes it out, and
-- `shutdown` takes out every name. Its thread pool: `init_thread_pool` throws unless it is asked for
-- 1 to 1000 threads and there is room for the queue, as there is for spdlog's own default size.
pub record Spdlog (R : Type 0) : Type 0 where
  pub holds : R → String → Bool
  pub register_logger : R → String → Option R
  pub drop : R → String → R
  pub shutdown : R → R
  pub register_free :
      (r : R) (name : String)
      → holds r name ≡ false
      → (r' : R) × (register_logger r name ≡ some r') × (holds r' name ≡ true)
  pub register_taken : (r : R) (name : String) → holds r name ≡ true → register_logger r name ≡ none
  pub accepts_pool : ℕ → ℕ → Bool
  pub fits_queue : ℕ → Bool
  pub accepts_pool_lem :
      (queue_size threads : ℕ)
      → accepts_pool queue_size threads
        ≡ (leb 1 threads && leb threads 1000 && fits_queue queue_size)
  pub fits_default : fits_queue 8192 ≡ true
  pub shutdown_free : (r : R) (name : String) → holds (shutdown r) name ≡ false

pub data Level : Type 0 where
  trace debug info warn error critical : Level

pub data Event : Type 0 where
  create_directories : String → Event
  init_thread_pool : ℕ → ℕ → Event
  console_sink : Level → Event
  file_sink : String → Level → Event
  make_logger : String → Event
  set_default_logger : Event
  set_level : Level → Event
  logged : Level → String → Event
  flush shut_down : Event
  drop : String → Event

-- instance_, and what is outside of the class.
pub record Logger (R : Type 0) : Type 0 where
  pub instance_set : Bool
  pub registry : R
  pub events : List Event

-- The arguments of init, with their defaults.
pub record Options : Type 0 where
  pub log_dir : String
  pub async_queue_size : ℕ
  pub async_thread_count : ℕ

abbrev pub default_options : Options
default_options = record { log_dir = "logs"; async_queue_size = 8192; async_thread_count = 1 }

-- Whether the directory can be made and the log file opened; otherwise the call throws.
pub record Files : Type 0 where
  pub has_directory : Bool
  pub has_file : Bool

-- A call returns its value or throws.
pub data Result (A : Type 0) : Type 0 where
  returned : A → Result A
  thrown : Result A

abbrev pub logger_name : String
logger_name = "drocm"

abbrev pub note : {R : Type 0} → Logger R → List Event → Logger R
note l es = record l { events = List.◌++◌ l.events es }

-- Up to the thread pool.
abbrev pub prepared : Options → List Event
prepared o =
    Event.create_directories o.log_dir
    ∷ Event.init_thread_pool o.async_queue_size o.async_thread_count
    ∷ []

-- Up to the file sink, which opens the file.
abbrev pub opened : Options → List Event
opened o =
    List.◌++◌ (prepared o) (
      Event.console_sink Level.debug ∷ Event.file_sink (o.log_dir ++ "/drocm.log") Level.trace ∷ [])

abbrev pub announced : List Event
announced =
    Event.set_default_logger
    ∷ Event.set_level Level.trace
    ∷ Event.logged Level.info "Logger initialized"
    ∷ []

-- After `register_logger`.
abbrev pub finished : {R : Type 0} → Logger R → Option R → Logger R × Result Bool
finished l none = (l, Result.thrown)
finished l (some r) = (note (record l { registry = r }) announced, Result.returned true)

module _ {R : Type 0} (spdlog : Spdlog R) where
  -- instance_ is set before `register_logger` is called.
  unfoldable pub init : Options → Files → Logger R → Logger R × Result Bool
  init o f l =
      if l.instance_set
      then (l, Result.returned true)
      else if not f.has_directory
      then (note l (Event.create_directories o.log_dir ∷ []), Result.thrown)
      else if not (spdlog.accepts_pool o.async_queue_size o.async_thread_count)
      then (note l (prepared o), Result.thrown)
      else if not f.has_file
      then (note l (opened o), Result.thrown)
      else finished
          (record (note l (List.◌++◌ (opened o) (Event.make_logger logger_name ∷ []))) {
            instance_set = true;
          })
          (spdlog.register_logger l.registry logger_name)

  unfoldable pub shutdown : Logger R → Logger R
  shutdown l =
      if l.instance_set
      then record {
        instance_set = false;
        registry = spdlog.shutdown (spdlog.drop l.registry logger_name);
        events = List.◌++◌ l.events (Event.flush ∷ Event.drop logger_name ∷ Event.shut_down ∷ []);
      }
      else l

-- get(): whether the pointer is set.
abbrev pub get : {R : Type 0} → Logger R → Bool
get l = l.instance_set

-- DROCM_LOG_*: none if it goes through the null pointer.
unfoldable pub log : {R : Type 0} → Level → String → Logger R → Option (Logger R)
log level message l = if get l then some (note l (Event.logged level message ∷ [])) else none
