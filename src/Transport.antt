-- ===== src/Transport.antt =====
-- src/core/transport/transport_manager.h and .cpp: a stub, whose calls keep a flag.
use d_ro_cm.Base.{ℕ, String, ◌≡◌, refl, Bool, true, false, List, [], ◌∷◌}

pub record TransportConfig : Type 0 where
  pub server_address : String
  pub server_port : ℕ
  pub connection_timeout_ms : ℕ
  pub request_timeout_ms : ℕ
  pub max_retries : ℕ
  pub retry_backoff_base_ms : ℕ
  pub keepalive_time_ms : ℕ
  pub keepalive_timeout_ms : ℕ

-- The member initialisers.
abbrev pub default_config : TransportConfig
default_config = record {
  server_address = "0.0.0.0";
  server_port = 50051;
  connection_timeout_ms = 5000;
  request_timeout_ms = 3000;
  max_retries = 3;
  retry_backoff_base_ms = 100;
  keepalive_time_ms = 10000;
  keepalive_timeout_ms = 5000;
}

pub record TransportManager : Type 0 where
  pub config : TransportConfig
  pub is_running : Bool

abbrev pub new_manager : TransportConfig → TransportManager
new_manager config = record { config = config; is_running = false }

unfoldable pub start : TransportManager → TransportManager × Bool
start m = (record m { is_running = true }, true)

unfoldable pub stop : TransportManager → TransportManager
stop m = record m { is_running = false }

abbrev pub is_running : TransportManager → Bool
is_running m = m.is_running

abbrev pub config : TransportManager → TransportConfig
config m = m.config

pub data Command : Type 0 where
  start_manager stop_manager : Command

abbrev pub obey : TransportManager → Command → TransportManager
obey m Command.start_manager = (start m).0
obey m Command.stop_manager = stop m

abbrev pub obey_all : TransportManager → List Command → TransportManager
obey_all m [] = m
obey_all m (c ∷ cs) = obey_all (obey m c) cs

-- Whether the last command was a start; `flag` if there was none.
abbrev pub last_starts : Bool → List Command → Bool
last_starts flag [] = flag
last_starts flag (Command.start_manager ∷ cs) = last_starts true cs
last_starts flag (Command.stop_manager ∷ cs) = last_starts false cs

-- After any starts and stops the manager runs exactly if the last one was a start (if there was none,
-- as before), and its configuration is the one that it was made with.
pub obey_all_lem :
    (m : TransportManager) (cs : List Command)
    → ((obey_all m cs).is_running ≡ last_starts m.is_running cs)
      × ((obey_all m cs).config ≡ m.config)
unfolding start stop
obey_all_lem m [] = (refl, refl)
obey_all_lem m (Command.start_manager ∷ cs) = obey_all_lem (start m).0 cs
obey_all_lem m (Command.stop_manager ∷ cs) = obey_all_lem (stop m) cs
