-- ===== src/Registry/Service/Refusals.antt =====
-- What a refused request leaves of the service.
use d_ro_cm.Base.{◌≡◌, refl, Bool, false}
use d_ro_cm.Grpc.{is_ok}
use d_ro_cm.Registry.Service.{RegistryService, register, heartbeat, deregister, discover}
use d_ro_cm.Registry.Service.Outcomes.{register_refused, heartbeat_refused, deregister_refused}
use d_ro_cm.Registry.Service.Shutdown.{
  Request, register_request, heartbeat_request, deregister_request, discover_request, serve,
}

-- The request is answered OK.
abbrev pub is_served : RegistryService → Request → Bool
is_served s (register_request request response roll now) =
    is_ok (register s request response roll now).2
is_served s (heartbeat_request request response now) = is_ok (heartbeat s request response now).2
is_served s (deregister_request request response) = is_ok (deregister s request response).2
is_served s (discover_request request response) = is_ok (discover s request response).2

-- A request that is not answered OK leaves the table and the running flag as they were.
pub serve-refused : (s : RegistryService) (r : Request) → is_served s r ≡ false → serve s r ≡ s
unfolding serve discover
serve-refused s (register_request request response roll now) h =
    register_refused s request response roll now h
serve-refused s (heartbeat_request request response now) h =
    heartbeat_refused s request response now h
serve-refused s (deregister_request request response) h = deregister_refused s request response h
serve-refused s (discover_request request response) h = refl
