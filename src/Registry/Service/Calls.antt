-- ===== src/Registry/Service/Calls.antt =====
-- The calls on the table that requests make, as data: at most one for each request.
use Prim.Native.String.{◌++◌}
use d_ro_cm.Base.{
  ℕ, String, ◌≡◌, refl, sym, ap, ◌∙◌, Bool, List, [], ◌∷◌, Option, none, some, ◌==◌, if◌then◌else◌,
  arith,
}
use mathlib.Core.List
use d_ro_cm.Proto.{NodeInfo, RegisterRequest, RegisterResponse}
use d_ro_cm.Registry.NodeTable.{NodeTable}
use d_ro_cm.Registry.NodeTable.History
use d_ro_cm.Registry.NodeTable.History.{Call, apply, run}
use d_ro_cm.Registry.Service.{RegistryService, register, heartbeat, deregister, discover}
use d_ro_cm.Registry.Service.Shutdown.{
  Request, register_request, heartbeat_request, deregister_request, discover_request, serve,
  serve_all, serve-is_running,
}
use d_ro_cm.Registry.Service

-- The call on the table that a request makes, if the flag is as given.
abbrev pub info_calls : Option NodeInfo → String → ℕ → List Call
info_calls none roll now = []
info_calls (some info) roll now =
    if info.node_id == "" then [] else History.register info (info.node_id ++ "_" ++ roll) now ∷ []

abbrev pub calls : Bool → Request → List Call
calls flag (register_request request response roll now) =
    if flag then info_calls request.node_info roll now else []
calls flag (heartbeat_request request response now) =
    if request.node_id == ""
    then []
    else History.heartbeat request.node_id request.cpu_usage request.memory_usage
        request.active_connections now
      ∷ []
calls flag (deregister_request request response) = History.deregister request.node_id ∷ []
calls flag (discover_request request response) = []

abbrev pub calls_all : Bool → List Request → List Call
calls_all flag [] = []
calls_all flag (r ∷ rs) = List.◌++◌ (calls flag r) (calls_all flag rs)

pub register_request_calls :
    (s : RegistryService) (o : Option NodeInfo) (response : RegisterResponse) (roll : String)
    (now : ℕ)
    → (Service.register_request s o response roll now).0.node_table
      ≡ run s.node_table (info_calls o roll now)
unfolding run apply
register_request_calls s none response roll now = ground arith
register_request_calls s (some info) response roll now = ground arith

register_calls :
    (s : RegistryService) (request : RegisterRequest) (o : Option NodeInfo)
    (response : RegisterResponse) (roll : String) (now : ℕ)
    → (register s (record request { node_info = o }) response roll now).0.node_table
      ≡ run s.node_table (if s.is_running then info_calls o roll now else [])
unfolding register run apply
register_calls s request none response roll now = ground arith
register_calls s request (some info) response roll now = ground arith

pub serve_calls :
    (s : RegistryService) (r : Request)
    → (serve s r).node_table ≡ run s.node_table (calls s.is_running r)
unfolding serve heartbeat deregister discover run apply
serve_calls s (register_request request response roll now) =
    register_calls s request request.node_info response roll now
serve_calls s (heartbeat_request request response now) = ground arith
serve_calls s (deregister_request request response) = ground arith
serve_calls s (discover_request request response) = refl

run-append : (t : NodeTable) (cs ds : List Call) → run t (List.◌++◌ cs ds) ≡ run (run t cs) ds
unfolding run
run-append t [] ds = refl
run-append t (c ∷ cs) ds = run-append (apply t c) cs ds

pub serve_all_calls :
    (s : RegistryService) (rs : List Request)
    → ((serve_all s rs).node_table ≡ run s.node_table (calls_all s.is_running rs))
      × ((serve_all s rs).is_running ≡ s.is_running)
unfolding serve_all run
serve_all_calls s [] = (refl, refl)
serve_all_calls s (r ∷ rs) =
    let (table, flag) = serve_all_calls (serve s r) rs in
    let same = serve-is_running s r in
    (
      table
          ∙ ap (λ b. run (serve s r).node_table (calls_all b rs)) same
          ∙ ap (λ t. run t (calls_all s.is_running rs)) (serve_calls s r)
          ∙ sym (run-append s.node_table (calls s.is_running r) (calls_all s.is_running rs)),
      flag ∙ same,
    )
