-- ===== src/Registry/Specification/Represents.antt =====
-- The directory that a service with its table stands for, and what each writing call on the table
-- does to it.
use mathlib.Core.Option
use d_ro_cm.Base.{ℕ, String, ◌≡◌, refl, ◌∙◌, false, none, leb, length, eq_iff, arith}
use d_ro_cm.Base.Maps.Laws.{contains-find, length-erase, length-modify, length-modify_all}
use d_ro_cm.Proto.{Float32, NodeInfo}
use d_ro_cm.Registry.NodeTable.{
  get_node, beat, miss, register_node, deregister_node, update_heartbeat,
  increment_all_missed_heartbeats, remove_stale_nodes,
}
use d_ro_cm.Registry.NodeTable.History
use d_ro_cm.Registry.NodeTable.History.{Call, apply, next_entry, heard, get_node-apply}
use d_ro_cm.Registry.NodeTable.Invariant.{IsValid, apply-IsValid}
use d_ro_cm.Registry.Service
use d_ro_cm.Registry.Service.{RegistryService}
use d_ro_cm.Registry.Service.Shutdown.{
  register_request, heartbeat_request, deregister_request, discover_request,
}
use d_ro_cm.Registry.Specification.{
  Step, Answer, Allows, serve, increment, remove_stale, shutdown, registered, beaten, deregistered,
  discovered, removed, silent,
}
use d_ro_cm.Registry.Specification.Fates.{
  Directory, admit, set_entry, left_directory, missed_directory,
}

-- One step of the program, and what is answered.
unfoldable pub respond : RegistryService → Step → RegistryService × Answer
respond s (serve (register_request request response roll now)) =
    let (s', reply, status) = Service.register s request response roll now in
    (s', registered reply status)
respond s (serve (heartbeat_request request response now)) =
    let (s', reply, status) = Service.heartbeat s request response now in (s', beaten reply status)
respond s (serve (deregister_request request response)) =
    let (s', reply, status) = Service.deregister s request response in
    (s', deregistered reply status)
respond s (serve (discover_request request response)) =
    let (s', reply, status) = Service.discover s request response in (s', discovered reply status)
respond s increment =
    (record s { node_table = increment_all_missed_heartbeats s.node_table }, silent)
respond s (remove_stale max) =
    let (table, ids) = remove_stale_nodes s.node_table max in
    (record s { node_table = table }, removed ids)
respond s shutdown = (Service.shutdown s, silent)

-- The directory that a service stands for.
pub record Represents (s : RegistryService) (d : Directory) : Type 0 where
  pub valid : IsValid s.node_table
  pub entries : (id : String) → get_node s.node_table id ≡ d.entry id
  pub counted : length s.node_table.nodes ≡ d.size
  pub same_capacity : s.node_table.max_nodes ≡ d.capacity
  pub same_flag : s.is_running ≡ d.is_open

-- After a step: the answer is allowed, and the service stands for a directory that the step leaves.
abbrev pub Refines : Directory → Step → RegistryService × Answer → Type 0
Refines d st (s', a) = (d' : Directory) × Allows d st a d' × Represents s' d'

-- What a call on the table does to the directory's entries.
entries-apply :
    (s : RegistryService) (d : Directory) (c : Call) (id : String)
    → Represents s d
    → get_node (apply s.node_table c) id ≡ next_entry (leb d.capacity d.size) id (d.entry id) c
entries-apply s d c id r =
    rw (← r.entries id, ← r.same_capacity, ← r.counted)
      (get_node-apply s.node_table id c r.valid.unique)

-- A table in which one call was made, for a directory that reads what the call leaves.
pub called :
    (s : RegistryService) (d d' : Directory) (c : Call)
    → Represents s d
    → ((id : String) → next_entry (leb d.capacity d.size) id (d.entry id) c ≡ d'.entry id)
    → length (apply s.node_table c).nodes ≡ d'.size
    → (apply s.node_table c).max_nodes ≡ d'.capacity
    → d.is_open ≡ d'.is_open
    → Represents (record s { node_table = apply s.node_table c }) d'
called s d d' c r entries counted capacity flag = record {
  valid = apply-IsValid s.node_table c r.valid;
  entries = λ id. entries-apply s d c id r ∙ entries id;
  counted = counted;
  same_capacity = capacity;
  same_flag = r.same_flag ∙ flag;
}

pub register_admitted :
    (s : RegistryService) (d : Directory) (info : NodeInfo) (sid : String) (now : ℕ)
    → Represents s d
    → d.entry info.node_id ≡ none
    → leb d.capacity d.size ≡ false
    → Represents
        (record s { node_table = apply s.node_table (History.register info sid now) })
        (admit d info sid now)
unfolding apply register_node get_node
register_admitted s d info sid now r absent room =
    called s d (admit d info sid now) (History.register info sid now) r
      (λ id. ground (arith, eq_iff info.node_id id))
      (ground (
        arith,
        r.counted,
        r.same_capacity,
        r.entries info.node_id,
        contains-find info.node_id s.node_table.nodes,
      ))
      (ground (arith, r.same_capacity)) refl

pub beat_known :
    (s : RegistryService) (d : Directory) (k : String) (cpu mem : Float32) (connections now : ℕ)
    → Represents s d
    → Represents
        (record s { node_table = apply s.node_table (History.heartbeat k cpu mem connections now) })
        (record d { entry = set_entry k (Option.map (heard now cpu mem) (d.entry k)) d.entry })
unfolding apply update_heartbeat
beat_known s d k cpu mem connections now r =
    called s d _ (History.heartbeat k cpu mem connections now) r (λ id. ground (arith, eq_iff k id))
      (ground (arith, r.counted, length-modify k (beat now cpu mem) s.node_table.nodes))
      (ground (arith, r.same_capacity)) refl

pub left :
    (s : RegistryService) (d : Directory) (k : String)
    → Represents s d
    → Represents
        (record s { node_table = apply s.node_table (History.deregister k) })
        (left_directory d k)
unfolding apply deregister_node get_node
left s d k r =
    called s d _ (History.deregister k) r (λ id. ground (arith, eq_iff k id))
      (ground (
        arith,
        r.counted,
        r.entries k,
        length-erase k s.node_table.nodes,
        contains-find k s.node_table.nodes,
      ))
      (ground (arith, r.same_capacity)) refl

pub missed :
    (s : RegistryService) (d : Directory)
    → Represents s d
    → Represents
        (record s { node_table = apply s.node_table History.increment })
        (missed_directory d)
unfolding apply increment_all_missed_heartbeats
missed s d r =
    called s d _ History.increment r (λ id. refl)
      (length-modify_all miss s.node_table.nodes ∙ r.counted) r.same_capacity refl
