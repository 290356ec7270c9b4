-- ===== src/Main/EntryPoint.antt =====
-- src/main.cpp: the logger, then a coroutine adapter that is made and shut down again.
use Prim.Native.String.{◌++◌}
use d_ro_cm.Base.{
  ℕ, String, ◌≡◌, refl, Bool, true, false, ◌&&◌, not, List, [], ◌∷◌, Option, none, some,
  if◌then◌else◌,
}
use d_ro_cm.Logger.{Spdlog, Logger, Level, Files, init, shutdown, log, default_options}
use d_ro_cm.Logger.Lifecycle.{IsFree, IsWritable, init_free}
use d_ro_cm.Version
use d_ro_cm.Coro
use d_ro_cm.Main.{
  Step, execute, all, implies, logged, info, initialized, next, exit_with, ReturnsWith,
}

-- The poller's jthread.
pub record Poller : Type 0 where
  pub joinable : Bool
  pub stop_requested : Bool

pub record Process (R : Type 0) : Type 0 where
  pub logger : Logger R
  pub coro_adapter : Option Poller
  pub shutdowns : Coro.Process

-- CoroAdapter::is_running, through the pointer.
abbrev pub is_running : Poller → Bool
is_running p = p.joinable && not p.stop_requested

abbrev debug_message : String
debug_message = "Logger initialized with async multi-sink (console + file)"

module _ {R : Type 0} where
  abbrev pub says : String → Process R → Step (Process R)
  says message p = info message p.logger (λ l. Step.goes (record p { logger = l }))

  -- make_unique<CoroAdapter>
  abbrev pub make_adapter : Process R → Step (Process R)
  make_adapter p = info "CoroAdapter initialized, poller thread started" p.logger (λ l.
      Step.goes (record p {
        logger = l;
        coro_adapter = some (record { joinable = true; stop_requested = false });
      }))

  -- CoroAdapter::shutdown. The adapter is the process's first: its number is 0.
  abbrev pub shutdown_adapter : Process R → Step (Process R)
  shutdown_adapter p =
      let shut = Coro.shutdown p.shutdowns 0 in
      if p.shutdowns.shutdown_flag
      then Step.goes (record p { shutdowns = shut })
      else info "Shutting down CoroAdapter poller thread" p.logger
          (λ l. Step.goes (record p { logger = l; shutdowns = shut }))

  -- The poller leaves its loop once the queue is shut down; the join waits for that.
  abbrev join_poller : Process R → Step (Process R)
  join_poller p =
      if p.shutdowns.queue_shut 0 then Step.goes (record p { coro_adapter = none }) else Step.blocks

  -- CoroAdapter::~CoroAdapter, and the destructor of its jthread.
  abbrev destroy_adapter : Process R → Option Poller → Step (Process R)
  destroy_adapter p none = Step.goes p
  destroy_adapter p (some a) = next (shutdown_adapter p) join_poller

  abbrev pub through_pointer : Process R → Option Poller → Step (Process R)
  through_pointer p none = Step.null_dereference
  through_pointer p (some a) = shutdown_adapter p

  abbrev pub verify : Process R → Option Poller → Step (Process R)
  verify p none = Step.null_dereference
  verify p (some a) =
      if is_running a
      then says "CompletionQueue poller thread is active" p
      else logged (log Level.error "CoroAdapter poller thread failed to start!" p.logger)
          (λ l. exit_with 1 (destroy_adapter (record p { logger = l }) p.coro_adapter))

  module _ (spdlog : Spdlog R) where
    abbrev pub statements : Files → List (Process R → Step (Process R))
    statements f =
        (λ p.
          initialized (init spdlog default_options f p.logger)
            (λ l. Step.goes (record p { logger = l })))
        ∷ says "=========================================="
        ∷ says "  D-RoCM - Distributed Robot Control Middleware"
        ∷ says "=========================================="
        ∷ says ("Version: " ++ Version.to_string)
        ∷ says "Build: C++20 | gRPC | Protobuf"
        ∷ says "=========================================="
        ∷ says (Version.to_string ++ " starting")
        ∷ (λ p.
            logged (log Level.debug debug_message p.logger)
              (λ l. Step.goes (record p { logger = l })))
        ∷ make_adapter
        ∷ says "CoroAdapter initialized, poller thread running"
        ∷ (λ p. verify p p.coro_adapter)
        ∷ says "Phase 0.1-0.3 & Phase 1.1/1.2 initialization complete"
        ∷ says "Ready for next phases (registry, node, streaming)"
        ∷ (λ p. through_pointer p p.coro_adapter)
        ∷ (λ p. destroy_adapter p p.coro_adapter)
        ∷ says "D-RoCM exited cleanly"
        ∷ (λ p. Step.goes (record p { logger = shutdown spdlog p.logger }))
        ∷ (λ p. exit_with 0 (destroy_adapter p p.coro_adapter))
        ∷ []

    abbrev pub main : Files → Process R → List (Process R) × Step (Process R)
    main f p = execute (statements f) p

-- While the poller is there, which logs too, the logger is.
abbrev pub has_adapter : Option Poller → Bool
has_adapter none = false
has_adapter (some a) = true

abbrev pub is_safe : {R : Type 0} → Process R → Bool
is_safe p = implies (has_adapter p.coro_adapter) p.logger.instance_set

-- A process that starts: nothing is set, and the queue of its adapter is not shut down.
abbrev pub started : {R : Type 0} → Logger R → (ℕ → Bool) → Process R
started l queue_shut = record {
  logger = l;
  coro_adapter = none;
  shutdowns = record { shutdown_flag = false; queue_shut = queue_shut };
}

-- Nothing is left of the logger and the adapter, whose queue is shut down.
abbrev pub IsClean : {R : Type 0} → Process R → Type 0
IsClean p =
    (p.logger.instance_set ≡ false) × (p.coro_adapter ≡ none) × (p.shutdowns.queue_shut 0 ≡ true)

-- If the logger's name is free and its file can be written, main returns 0 with the adapter and the
-- logger gone and the queue shut down; on the way the logger is there while the adapter is.
pub main_returns :
    {R : Type 0} (spdlog : Spdlog R) (f : Files) (l : Logger R) (shut : ℕ → Bool)
    → IsFree spdlog l
    → IsWritable f
    → let (passed, end) = main spdlog f (started l shut) in
      ReturnsWith 0 IsClean end × (all is_safe passed ≡ true)
unfolding log shutdown Coro.shutdown
main_returns spdlog f l shut free writable =
    let (r, es, begun) = init_free spdlog f l free writable in
    rw begun ((refl, (refl, refl, refl)), refl)
