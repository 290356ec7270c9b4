-- ===== src/Registry/Server/Silent.antt =====
-- What the registry server answers a node that has been silent, and one that has not.
use d_ro_cm.Base.{
  ℕ, ◌+◌, ◌≤◌, ◌<◌, String, ◌≡◌, ◌≢◌, ◌∙◌, ap, sym, true, ◌&&◌, List, none, some, All, map, length,
  length-map, ltb, eq_iff, u32_mod, arith,
}
use d_ro_cm.Base.Maps.Laws.{contains-find}
use d_ro_cm.Grpc.{StatusCode, is_ok}
use d_ro_cm.Proto.{NodeInfo, RegisterRequest, RegisterResponse, HeartbeatRequest, HeartbeatResponse}
use d_ro_cm.Registry.NodeTable.{get_node, register_node}
use d_ro_cm.Registry.NodeTable.Invariant.{IsValid}
use d_ro_cm.Registry.Service.{RegistryService, register, heartbeat}
use d_ro_cm.Registry.Service.Outcomes.{heartbeat_unknown, heartbeat-is_ok_iff}
use d_ro_cm.Registry.HealthChecker.Entry.{Below, Lags, IsAlive, Spares}
use d_ro_cm.Registry.HealthChecker.Timeout.{During}
use d_ro_cm.Registry.HealthChecker.Silence.{
  IsSilentRound, IsHeard, run_loop_timeout, run_loop_survives,
}
use d_ro_cm.Registry.Server.{Turn, round, server_loop, server_loop-run_loop}

-- A Register of a node that the table does not hold, at a service whose flag is known.
register_unknown :
    (s : RegistryService) (info : NodeInfo) (request : RegisterRequest)
    (response : RegisterResponse) (roll : String) (now : ℕ)
    → info.node_id ≢ ""
    → get_node s.node_table info.node_id ≡ none
    → is_ok (register s (record request { node_info = some info }) response roll now).2
      ≡ s.is_running && ltb (length s.node_table.nodes) s.node_table.max_nodes
unfolding register register_node get_node
register_unknown s info request response roll now named unknown =
    ground (arith, eq_iff info.node_id "", contains-find info.node_id s.node_table.nodes)

module _ (max : ℕ) (fits : max < u32_mod) (s : RegistryService) (us : List Turn) (id : String)
    (n : ℕ) (v : IsValid s.node_table) (named : id ≢ "") where
  -- At a registry with a valid table and a positive threshold in 32 bits: a node with a non-empty
  -- id, below the threshold, that neither registers nor beats is answered NOT_FOUND with the advice
  -- to reconnect, once its misses and the completed turns of the checker make up the threshold,
  -- whatever else is served meanwhile; and its registration is accepted exactly if the service runs
  -- and the table has room.
  pub silent_node_refused :
      (pulse : HeartbeatRequest) (info : NodeInfo) (join : RegisterRequest) (r₁ : HeartbeatResponse)
      (r₂ : RegisterResponse) (roll : String) (now : ℕ)
      → 0 < max
      → All (IsSilentRound id) (map (round s.is_running) us)
      → Lags n (get_node s.node_table id)
      → Below max (get_node s.node_table id)
      → max ≤ n + length us
      → pulse.node_id ≡ id
      → info.node_id ≡ id
      → let after = server_loop max s us in
        ((heartbeat after pulse r₁ now).2.code ≡ StatusCode.not_found)
        × ((heartbeat after pulse r₁ now).1.should_reconnect ≡ true)
        × (is_ok (register after (record join { node_info = some info }) r₂ roll now).2
            ≡ s.is_running && ltb (length after.node_table.nodes) after.node_table.max_nodes)
  silent_node_refused pulse info join r₁ r₂ roll now pos silent lags below enough p q =
      let after = server_loop max s us in
      let (table, flag) = server_loop-run_loop max s us in
      let rounds = map (round s.is_running) us in
      let gone : get_node after.node_table id ≡ none =
        ap (λ t. get_node t id) table
        ∙ run_loop_timeout max pos fits id n s.node_table rounds v silent lags below
            (omega (arith, length-map (round s.is_running) us, enough)) in
      let (advice, code, _) =
        heartbeat_unknown after pulse r₁ now (λ e. named (sym p ∙ e)) (rw p gone) in
      (
        code,
        advice,
        register_unknown after info join r₂ roll now (λ e. named (sym q ∙ e)) (rw q gone)
            ∙ ap (λ b. b && ltb (length after.node_table.nodes) after.node_table.max_nodes) flag,
      )

  -- At a registry with a valid table and a threshold in 32 bits: a node with a non-empty id that is
  -- there, is heard from while the checker sleeps before its misses reach the threshold, and is not
  -- deregistered, has its next heartbeat accepted, whatever else is served meanwhile and however
  -- the checker is stopped.
  pub beating_node_accepted :
      (pulse : HeartbeatRequest) (response : HeartbeatResponse) (now : ℕ)
      → All (During (Spares id)) (map (round s.is_running) us)
      → IsHeard max id n (map (round s.is_running) us)
      → IsAlive n (get_node s.node_table id)
      → pulse.node_id ≡ id
      → is_ok (heartbeat (server_loop max s us) pulse response now).2 ≡ true
  beating_node_accepted pulse response now spared heard alive p =
      let after = server_loop max s us in
      let (table, flag) = server_loop-run_loop max s us in
      let rounds = map (round s.is_running) us in
      let there = run_loop_survives max fits id n s.node_table rounds v spared heard alive in
      (heartbeat-is_ok_iff after pulse response now).1 (
        (λ e. named (sym p ∙ e)),
        (λ e.
            there
              (ap (λ t. get_node t id) (sym table) ∙ ap (get_node after.node_table) (sym p) ∙ e)),
      )
