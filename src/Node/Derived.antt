-- ===== src/Node/Derived.antt =====
-- The virtual functions of Node and their defaults, and the accessors for derived classes
-- (node_base.h, node_base.cpp). `S` is the state of the derived object.
use d_ro_cm.Base.{◌≡◌, refl, arith, ℕ, Bool, true, false, List, [], ◌∷◌, if◌then◌else◌}
use d_ro_cm.Proto.{NodeInfo, Float32, zero_float}
use d_ro_cm.Node.{Node, Outcome, done, null_dereference, stop}
use d_ro_cm.Node.Loop.{Event}

pub record Derived (S : Type 0) : Type 0 where
  pub get_node_info : S → NodeInfo
  pub get_heartbeat_payload : S → Float32 × Float32 × ℕ
  pub on_reconnect_attempt : ℕ → ℕ → S → S
  pub on_reconnected : S → S

module _ {S : Type 0} where
  abbrev pub default_payload : S → Float32 × Float32 × ℕ
  default_payload s = (zero_float, zero_float, 0)

  abbrev pub default_on_reconnect_attempt : ℕ → ℕ → S → S
  default_on_reconnect_attempt attempt delay_ms s = s

  abbrev pub default_on_reconnected : S → S
  default_on_reconnected s = s

  -- A derived class that gives its metadata alone.
  abbrev pub plain : (S → NodeInfo) → Derived S
  plain get_node_info = record {
    get_node_info = get_node_info;
    get_heartbeat_payload = default_payload;
    on_reconnect_attempt = default_on_reconnect_attempt;
    on_reconnected = default_on_reconnected;
  }

  -- What an event of the heartbeat loop does to the derived object.
  abbrev pub react : Derived S → S → Event → S
  react c s (Event.on_reconnect_attempt attempt delay_ms) =
      c.on_reconnect_attempt attempt delay_ms s
  react c s Event.on_reconnected = c.on_reconnected s
  react c s _ = s

  unfoldable pub react_all : Derived S → S → List Event → S
  react_all c s [] = s
  react_all c s (e ∷ es) = react_all c (react c s e) es

abbrev pub is_running : Node → Bool
is_running n = n.is_running

-- `*coro_adapter_`
abbrev pub get_coro_adapter : Node → Outcome Unit
get_coro_adapter n = if n.coro_adapter then done tt else null_dereference

-- The destructor; in it the virtual call is to Node's own `stop`.
abbrev pub destroy : Node → Outcome Node
destroy n = stop n

-- The pointers as they are, which may be null.
abbrev pub get_registry_channel : Node → Bool
get_registry_channel n = n.registry_channel

abbrev pub get_registry_stub : Node → Bool
get_registry_stub n = n.registry_stub

-- A derived class with the default callbacks is not moved by anything that the loop does.
pub react_all-plain :
    {S : Type 0} (get_node_info : S → NodeInfo) (s : S) (es : List Event)
    → react_all (plain get_node_info) s es ≡ s
unfolding react_all
react_all-plain i s [] = refl
react_all-plain i s (Event.sleep_ms ms ∷ es) = react_all-plain i s es
react_all-plain i s (Event.send_heartbeat request ∷ es) = react_all-plain i s es
react_all-plain i s (Event.send_register request ∷ es) = react_all-plain i s es
react_all-plain i s (Event.on_reconnect_attempt a d ∷ es) = react_all-plain i s es
react_all-plain i s (Event.on_reconnected ∷ es) = react_all-plain i s es

-- A derived class that asks for the adapter of a node that has been stopped dereferences null, and
-- gets a null stub and a null channel; the destructor then does nothing.
pub accessors-stop :
    (n n' : Node)
    → n.is_running ≡ true
    → stop n ≡ done n'
    → (get_coro_adapter n' ≡ null_dereference)
      × (get_registry_stub n' ≡ false)
      × (get_registry_channel n' ≡ false)
      × (is_running n' ≡ false)
      × (destroy n' ≡ done n')
unfolding stop
accessors-stop n n' on e = (ground arith, ground arith, ground arith, ground arith, ground arith)
