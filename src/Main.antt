-- ===== src/Main.antt =====
-- The entry points, src/main.cpp, examples/registry_server.cpp and main of
-- examples/lidar_emulator.cpp: each is a list of statements on the state of its process.
pub mod EntryPoint
pub mod RegistryServer
pub mod LidarEmulator
use d_ro_cm.Base.{
  ℕ, String, ◌≡◌, Bool, true, false, ◌&&◌, not, ◌||◌, List, [], ◌∷◌, Option, none, some,
  if◌then◌else◌,
}
use d_ro_cm.Logger.{Spdlog, Logger, Level, Options, Files, Result, init, log}

-- How a statement ends: it goes on, main returns, a null pointer is dereferenced, std::terminate is
-- called, or it waits for ever.
pub data Step (S : Type 0) : Type 0 where
  goes : S → Step S
  exits : ℕ → S → Step S
  null_dereference terminates blocks : Step S

abbrev pub passing : {S : Type 0} → Step S → (S → List S × Step S) → List S × Step S
passing (Step.goes s) k = let (passed, end) = k s in (s ∷ passed, end)
passing r k = ([], r)

-- main returns once its locals are destroyed.
abbrev pub exit_with : {S : Type 0} → ℕ → Step S → Step S
exit_with code (Step.goes s) = Step.exits code s
exit_with code r = r

abbrev pub next : {S : Type 0} → Step S → (S → Step S) → Step S
next (Step.goes s) k = k s
next r k = r

-- The states that the process passes through, and its end.
abbrev pub execute : {S : Type 0} → List (S → Step S) → S → List S × Step S
execute [] s = ([], Step.goes s)
execute (f ∷ fs) s = passing (f s) (execute fs)

-- main returns with this code, in a state with this property.
abbrev pub ReturnsWith : {S : Type 0} → ℕ → (S → Type 0) → Step S → Type 0
ReturnsWith code P (Step.exits c s) = (c ≡ code) × P s
ReturnsWith code P _ = ⊥

abbrev pub all : {S : Type 0} → (S → Bool) → List S → Bool
all test [] = true
all test (s ∷ ss) = test s && all test ss

abbrev pub implies : Bool → Bool → Bool
implies a b = not a || b

-- A statement that logs and then does something else with the logger as it leaves it.
abbrev pub logged : {R S : Type 0} → Option (Logger R) → (Logger R → Step S) → Step S
logged none k = Step.null_dereference
logged (some l) k = k l

abbrev pub info : {R S : Type 0} → String → Logger R → (Logger R → Step S) → Step S
info message l k = logged (log Level.info message l) k

-- An exception of init ends the process.
abbrev pub initialized : {R S : Type 0} → Logger R × Result Bool → (Logger R → Step S) → Step S
initialized (l, Result.returned ok) k = k l
initialized (l, Result.thrown) k = Step.terminates

-- The state of grpc::BuildAndStart's server: not built yet, null because the address could not be
-- bound, serving, or shut down.
pub data Server : Type 0 where
  not_built unbound serving shut_down : Server

abbrev pub is_serving : Server → Bool
is_serving Server.serving = true
is_serving _ = false

abbrev pub is_shut_down : Server → Bool
is_shut_down Server.shut_down = true
is_shut_down _ = false

abbrev pub built : Bool → Server
built is_bound = if is_bound then Server.serving else Server.unbound

-- `server->Shutdown()`, which returns when the handlers have.
abbrev pub server_shutdown : {S : Type 0} → Server → (Server → S) → Step S
server_shutdown Server.serving set = Step.goes (set Server.shut_down)
server_shutdown Server.shut_down set = Step.goes (set Server.shut_down)
server_shutdown _ set = Step.null_dereference

-- `server->Wait()`, which waits for a shutdown.
abbrev pub server_wait : {S : Type 0} → Server → S → Step S
server_wait Server.serving s = Step.blocks
server_wait Server.shut_down s = Step.goes s
server_wait _ s = Step.null_dereference
