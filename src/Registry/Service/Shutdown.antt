-- ===== src/Registry/Service/Shutdown.antt =====
-- What RegistryServiceImpl::Shutdown stops, and what it does not; session ids in requests.
use d_ro_cm.Base.{ℕ, String, ◌≡◌, refl, ◌∙◌, List, [], ◌∷◌, arith}
use d_ro_cm.Grpc.{StatusCode}
use d_ro_cm.Proto.{
  RegisterRequest, RegisterResponse, HeartbeatRequest, HeartbeatResponse, DeregisterRequest,
  DeregisterResponse, DiscoverRequest, DiscoverResponse,
}
use d_ro_cm.Registry.Service.{
  RegistryService, Reply, register, heartbeat, deregister, discover, shutdown,
}

-- The requests that a client can send.
pub data Request : Type 0 where
  register_request : RegisterRequest → RegisterResponse → String → ℕ → Request
  heartbeat_request : HeartbeatRequest → HeartbeatResponse → ℕ → Request
  deregister_request : DeregisterRequest → DeregisterResponse → Request
  discover_request : DiscoverRequest → DiscoverResponse → Request

unfoldable pub serve : RegistryService → Request → RegistryService
serve s (register_request request response roll now) = (register s request response roll now).0
serve s (heartbeat_request request response now) = (heartbeat s request response now).0
serve s (deregister_request request response) = (deregister s request response).0
serve s (discover_request request response) = (discover s request response).0

-- No request turns the flag back on or off.
pub serve-is_running : (s : RegistryService) (r : Request) → (serve s r).is_running ≡ s.is_running
unfolding serve register heartbeat deregister discover
serve-is_running s (register_request request response roll now) = ground arith
serve-is_running s (heartbeat_request request response now) = ground arith
serve-is_running s (deregister_request request response) = ground arith
serve-is_running s (discover_request request response) = refl

unfoldable pub serve_all : RegistryService → List Request → RegistryService
serve_all s [] = s
serve_all s (r ∷ rs) = serve_all (serve s r) rs

serve_all-is_running :
    (s : RegistryService) (rs : List Request) → (serve_all s rs).is_running ≡ s.is_running
unfolding serve_all
serve_all-is_running s [] = refl
serve_all-is_running s (r ∷ rs) = serve_all-is_running (serve s r) rs ∙ serve-is_running s r

-- After Shutdown, whatever is served in between, Register answers UNAVAILABLE and leaves the
-- service and the response alone.
pub register-shutdown :
    (s : RegistryService) (rs : List Request) (request : RegisterRequest)
    (response : RegisterResponse) (roll : String) (now : ℕ)
    → let after = serve_all (shutdown s) rs in
      let reply = register after request response roll now in
      (reply.2.code ≡ StatusCode.unavailable) × (reply.0 ≡ after) × (reply.1 ≡ response)
unfolding register shutdown
register-shutdown s rs request response roll now =
    let stopped = serve_all-is_running (shutdown s) rs in (rw stopped, rw stopped, rw stopped)

-- The same reply, of a service that has been shut down.
abbrev pub shut_down : {R : Type 0} → Reply R → Reply R
shut_down (s, response, status) = (shutdown s, response, status)

-- `Shutdown` is seen by `Register` alone: the other three handlers answer and write the table as
-- they do on a running service.
pub others_ignore_shutdown :
    (s : RegistryService) (beat : HeartbeatRequest) (leave : DeregisterRequest)
    (ask : DiscoverRequest) (r₁ : HeartbeatResponse) (r₂ : DeregisterResponse)
    (r₃ : DiscoverResponse) (now : ℕ)
    → (heartbeat (shutdown s) beat r₁ now ≡ shut_down (heartbeat s beat r₁ now))
      × (deregister (shutdown s) leave r₂ ≡ shut_down (deregister s leave r₂))
      × (discover (shutdown s) ask r₃ ≡ shut_down (discover s ask r₃))
unfolding heartbeat deregister discover shutdown
others_ignore_shutdown s beat leave ask r₁ r₂ r₃ now = (ground arith, ground arith, refl)

-- The session id of a request is never compared with the one that was handed out: requests that
-- differ in it alone are served alike.
pub session_ignored :
    (s : RegistryService) (beat : HeartbeatRequest) (leave : DeregisterRequest) (other : String)
    (r₁ : HeartbeatResponse) (r₂ : DeregisterResponse) (now : ℕ)
    → (heartbeat s (record beat { session_id = other }) r₁ now ≡ heartbeat s beat r₁ now)
      × (deregister s (record leave { session_id = other }) r₂ ≡ deregister s leave r₂)
unfolding heartbeat deregister
session_ignored s beat leave other r₁ r₂ now = (refl, refl)
