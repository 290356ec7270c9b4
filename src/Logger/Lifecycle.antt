-- ===== src/Logger/Lifecycle.antt =====
-- Any sequence of the logger's calls: init, shutdown and the macros.
use d_ro_cm.Base.{
  leb, sym, String, ◌≡◌, refl, ◌↔◌, Bool, Bool-cases, inl, inr, ◌∙◌, true, false, ◌&&◌, ◌||◌, List,
  [], ◌∷◌, Option, none, some, if◌then◌else◌,
}
use mathlib.Core.List
use d_ro_cm.Logger.{
  Spdlog, Level, Logger, Options, Files, Result, Event, logger_name, init, shutdown, log, note,
  opened, announced, default_options,
}

pub data Call : Type 0 where
  init_logger : Options → Files → Call
  shutdown_logger : Call
  log_message : Level → String → Call

-- A process that goes on after an exception of init, and ends at a null dereference.
abbrev or_fault :
    {R : Type 0} → Option (Logger R) → (Logger R → Option (Logger R)) → Option (Logger R)
or_fault none k = none
or_fault (some l) k = k l

abbrev pub IsWritable : Files → Type 0
IsWritable f = (f.has_directory ≡ true) × (f.has_file ≡ true)

module _ {R : Type 0} (spdlog : Spdlog R) where
  abbrev pub obey : Call → Logger R → Option (Logger R)
  obey (Call.init_logger o f) l = some (init spdlog o f l).0
  obey Call.shutdown_logger l = some (shutdown spdlog l)
  obey (Call.log_message level message) l = log level message l

  abbrev pub obey_all : List Call → Logger R → Option (Logger R)
  obey_all [] l = some l
  obey_all (c ∷ cs) l = or_fault (obey c l) (obey_all cs)

  -- The instance is set exactly if spdlog knows its name.
  abbrev pub IsSound : Logger R → Type 0
  IsSound l = spdlog.holds l.registry logger_name ≡ l.instance_set

  -- The directory can be made, spdlog accepts the thread pool, and the file can be written.
  abbrev pub is_possible : Options → Files → Bool
  is_possible o f =
      f.has_directory
      && (leb 1 o.async_thread_count
          && leb o.async_thread_count 1000
          && spdlog.fits_queue o.async_queue_size)
      && f.has_file

  abbrev works : Logger R → Options → Files → Bool
  works l o f = l.instance_set || is_possible o f

  abbrev pub outcome : Bool → Result Bool
  outcome ok = if ok then Result.returned true else Result.thrown

  pool_law :
      (o : Options)
      → spdlog.accepts_pool o.async_queue_size o.async_thread_count ≡ (
          leb 1 o.async_thread_count
          && leb o.async_thread_count 1000
          && spdlog.fits_queue o.async_queue_size)
  pool_law o = spdlog.accepts_pool_lem o.async_queue_size o.async_thread_count

  default_accepted : spdlog.accepts_pool 8192 1 ≡ true
  default_accepted = spdlog.accepts_pool_lem 8192 1 ∙ spdlog.fits_default

  init-IsSound :
      (o : Options) (f : Files) (l : Logger R)
      → IsSound l
      → let (l', result) = init spdlog o f l in
        IsSound l' × (l'.instance_set ≡ works l o f) × (result ≡ outcome (works l o f))
  unfolding init
  init-IsSound o f l v = elim (Bool-cases l.instance_set) [
    | inl on ↦ rw on (v ∙ on, refl, refl)
    | inr off ↦ elim (Bool-cases f.has_directory) [
      | inr no_directory ↦ rw (off, no_directory) (v ∙ off, refl, refl)
      | inl directory ↦
          elim (Bool-cases (spdlog.accepts_pool o.async_queue_size o.async_thread_count)) [
            | inr refused ↦
                let no_pool = sym (pool_law o) ∙ refused in
                rw (off, directory, refused, no_pool) (v ∙ off, refl, refl)
            | inl accepted ↦ elim (Bool-cases f.has_file) [
              | inr no_file ↦
                  let pool = sym (pool_law o) ∙ accepted in
                  rw (off, directory, accepted, pool, no_file) (v ∙ off, refl, refl)
              | inl file ↦
                  let pool = sym (pool_law o) ∙ accepted in
                  let (r, registers, holds) =
                    spdlog.register_free l.registry logger_name (v ∙ off) in
                  rw (off, directory, accepted, pool, file, registers) (holds, refl, refl)
            ]
          ]
    ]
  ]

  shutdown-IsSound :
      (l : Logger R)
      → IsSound l
      → IsSound (shutdown spdlog l) × ((shutdown spdlog l).instance_set ≡ false)
  unfolding shutdown
  shutdown-IsSound l v = elim (Bool-cases l.instance_set) [
    | inl on ↦ rw on (spdlog.shutdown_free (spdlog.drop l.registry logger_name) logger_name, refl)
    | inr off ↦ rw off (v ∙ off, refl)
  ]

  -- Sound, unless the process has ended.
  abbrev pub Sound : Option (Logger R) → Type 0
  Sound none = Unit
  Sound (some l) = IsSound l

  obey-Sound : (c : Call) (l : Logger R) → IsSound l → Sound (obey c l)
  unfolding log
  obey-Sound (Call.init_logger o f) l v = (init-IsSound o f l v).0
  obey-Sound Call.shutdown_logger l v = (shutdown-IsSound l v).0
  obey-Sound (Call.log_message level message) l v = elim (Bool-cases l.instance_set) [
    | inl on ↦ rw on (v ∙ on)
    | inr off ↦ rw off tt
  ]

  or_fault-Sound :
      (o : Option (Logger R)) (k : Logger R → Option (Logger R))
      → Sound o
      → ((l : Logger R) → IsSound l → Sound (k l))
      → Sound (or_fault o k)
  or_fault-Sound none k v f = tt
  or_fault-Sound (some l) k v f = f l v

  pub obey_all-Sound : (cs : List Call) (l : Logger R) → IsSound l → Sound (obey_all cs l)
  obey_all-Sound [] l v = v
  obey_all-Sound (c ∷ cs) l v =
      or_fault-Sound (obey c l) (obey_all cs) (obey-Sound c l v) (obey_all-Sound cs)

  -- What init, a macro and shutdown do next.
  abbrev pub Answers : Option (Logger R) → Type 0
  Answers none = Unit
  Answers (some l) =
      ((o : Options) (f : Files)
        → ((init spdlog o f l).1 ≡ outcome (works l o f))
          × ((init spdlog o f l).0.instance_set ≡ works l o f))
      × ((level : Level) (message : String)
          → (log level message l ≡ none) ↔ (l.instance_set ≡ false))
      × ((shutdown spdlog l).instance_set ≡ false)

  -- Not initialised, and spdlog does not know the name.
  abbrev pub IsFree : Logger R → Type 0
  IsFree l = (l.instance_set ≡ false) × (spdlog.holds l.registry logger_name ≡ false)

  -- Then init with its defaults, with a directory and a file to write to, sets the instance and
  -- returns.
  pub init_free :
      (f : Files) (l : Logger R)
      → IsFree l
      → IsWritable f
      → (r : R) × (es : List Event) × (init spdlog default_options f l
          ≡ (record { instance_set = true; registry = r; events = es }, Result.returned true))
  unfolding init
  init_free f l (off, free) (directory, file) =
      let (r, registers, holds) = spdlog.register_free l.registry logger_name free in
      let made = note l (List.◌++◌ (opened default_options) (Event.make_logger logger_name ∷ [])) in
      (r, (note made announced).events, rw (off, directory, default_accepted, file, registers) refl)

  -- If spdlog knows the name already, init throws, but the instance stays set: the next init, a
  -- macro and get behave as if it had succeeded.
  pub init_taken :
      (o : Options) (f : Files) (l : Logger R)
      → l.instance_set ≡ false
      → f.has_directory ≡ true
      → spdlog.accepts_pool o.async_queue_size o.async_thread_count ≡ true
      → f.has_file ≡ true
      → spdlog.holds l.registry logger_name ≡ true
      → ((init spdlog o f l).1 ≡ Result.thrown)
        × ((init spdlog o f l).0.instance_set ≡ true)
        × ((init spdlog o f (init spdlog o f l).0).1 ≡ Result.returned true)
  unfolding init
  init_taken o f l off directory accepted file taken =
      rw (off, directory, accepted, file, spdlog.register_taken l.registry logger_name taken)
        (refl, refl, refl)
