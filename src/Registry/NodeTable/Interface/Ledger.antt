-- ===== src/Registry/NodeTable/Interface/Ledger.antt =====
-- A second class that keeps the promises of Interface: a function from ids to entries, and a list of the
-- ids, with its own description of the entries and of the discovery. It serves as the reference for the
-- first.
use d_ro_cm.Base.{
  ℕ, String, ◌≡◌, ◌≢◌, refl, ap, ◌↔◌, Bool, true, false, not, Option, none, some, List, [], ◌∷◌,
  if◌then◌else◌, leb, length, keep_if, Elem, Elem-keep_if, All-Elem, if_intro, ◌==◌, eq_iff, arith,
  eqb, ◌&&◌, ◌||◌, contains_string,
}
use mathlib.Core.Option
use d_ro_cm.Base.Keyed.{Apart, Apart-keep_if}
use d_ro_cm.Proto.{NodeInfo, Float32, zero_float}
use d_ro_cm.Registry.NodeTable.{NodeEntry}
use d_ro_cm.Registry.NodeTable.History.{entry_of, heard, unheard}
use d_ro_cm.Registry.NodeTable.Sweep.{drop_stale}
use d_ro_cm.Registry.NodeTable.Interface.{Operations, Meaning, is_some}

pub record Ledger : Type 0 where
  pub entry : String → Option NodeEntry
  pub ids : List String
  pub max_nodes : ℕ

abbrev no_ledger : ℕ → Ledger
no_ledger max_nodes = record { entry = λ k. none; ids = []; max_nodes = max_nodes }

abbrev enter : Ledger → NodeInfo → String → ℕ → Ledger × Bool
enter l info session_id now =
    if leb l.max_nodes (length l.ids)
    then (l, false)
    else (if is_some (l.entry info.node_id) then (l, false) else (
      record l {
        entry = λ k.
            if info.node_id == k
            then some (entry_of info session_id now 0 zero_float zero_float)
            else l.entry k;
        ids = info.node_id ∷ l.ids;
      },
      true,
    ))

abbrev strike : Ledger → String → Ledger × Bool
strike l id =
    if is_some (l.entry id)
    then (
      record l {
        entry = λ k. if id == k then none else l.entry k;
        ids = keep_if (λ k. not (id == k)) l.ids;
      },
      true,
    )
    else (l, false)

abbrev note : Ledger → String → Float32 → Float32 → ℕ → ℕ → Ledger × Bool
note l id cpu mem connections now =
    if is_some (l.entry id)
    then (
      record l {
        entry = λ k. if id == k then Option.map (heard now cpu mem) (l.entry k) else l.entry k;
      },
      true,
    )
    else (l, false)

abbrev pub prepend : Option NodeEntry → List NodeEntry → List NodeEntry
prepend none rest = rest
prepend (some e) rest = e ∷ rest

abbrev pub collect : (String → Option NodeEntry) → List String → List NodeEntry
collect entry [] = []
collect entry (k ∷ ks) = prepend (entry k) (collect entry ks)

abbrev pub is_stale : ℕ → Option NodeEntry → Bool
is_stale max none = false
is_stale max (some e) = leb max e.missed_heartbeats

abbrev purge : Ledger → ℕ → Ledger × List String
purge l max = (
  record l {
    entry = λ k. drop_stale max (l.entry k);
    ids = keep_if (λ k. not (is_stale max (l.entry k))) l.ids;
  },
  keep_if (λ k. is_stale max (l.entry k)) l.ids,
)

-- Some service that the filter names is one of the node's.
abbrev pub names_one : List String → List String → Bool
names_one [] services = false
names_one (svc ∷ filter) services = contains_string services svc || names_one filter services

abbrev pub is_offered : List String → NodeEntry → Bool
is_offered [] e = eqb e.missed_heartbeats 0
is_offered (svc ∷ filter) e = eqb e.missed_heartbeats 0 && names_one (svc ∷ filter) e.info.services

abbrev pub ledger : Operations Ledger
ledger = record {
  make = no_ledger;
  register_node = enter;
  deregister_node = strike;
  update_heartbeat = note;
  get_all_nodes = λ l. collect l.entry l.ids;
  get_nodes_by_service = λ l filter. keep_if (is_offered filter) (collect l.entry l.ids);
  get_node = λ l. l.entry;
  get_node_count = λ l. length l.ids;
  has_node = λ l id. is_some (l.entry id);
  remove_stale_nodes = purge;
  increment_all_missed_heartbeats = λ l. record l { entry = λ k. Option.map unheard (l.entry k) };
}

abbrev pub AtHome : String → Option NodeEntry → Type 0
AtHome k none = Unit
AtHome k (some e) = e.info.node_id ≡ k

-- The ids are those of the entries, each once, and each entry stands under its own.
pub record InOrder (l : Ledger) : Type 0 where
  pub once : Apart (λ (k : String). k) l.ids
  pub known : (k : String) → Elem k l.ids ↔ (is_some (l.entry k) ≡ true)
  pub own : (k : String) → AtHome k (l.entry k)

abbrev pub meaning : Meaning Ledger
meaning = record { IsGood = InOrder; max_nodes = λ l. l.max_nodes }

heard-AtHome :
    (k : String) (o : Option NodeEntry) (now : ℕ) (cpu mem : Float32)
    → AtHome k o
    → AtHome k (Option.map (heard now cpu mem) o)
heard-AtHome k none now cpu mem h = tt
heard-AtHome k (some e) now cpu mem h = h

unheard-AtHome : (k : String) (o : Option NodeEntry) → AtHome k o → AtHome k (Option.map unheard o)
unheard-AtHome k none h = tt
unheard-AtHome k (some e) h = h

stale-AtHome :
    (max : ℕ) (k : String) (o : Option NodeEntry) → AtHome k o → AtHome k (drop_stale max o)
stale-AtHome max k none h = tt
stale-AtHome max k (some e) h = ground (arith, h)

is_some-map :
    (f : NodeEntry → NodeEntry) (o : Option NodeEntry) → is_some (Option.map f o) ≡ is_some o
is_some-map f none = refl
is_some-map f (some e) = refl

is_some-drop_stale :
    (max : ℕ) (o : Option NodeEntry)
    → (is_some (drop_stale max o) ≡ true) ↔ ((is_some o ≡ true) × (not (is_stale max o) ≡ true))
is_some-drop_stale max none = ((λ h. cc), (λ h. h.0))
is_some-drop_stale max (some e) = ((λ h. ground (arith, h)), (λ h. ground (arith, h)))

pub enter-InOrder :
    (l : Ledger) (info : NodeInfo) (sid : String) (now : ℕ)
    → InOrder l
    → InOrder (enter l info sid now).0
enter-InOrder l info sid now g =
    let P = λ (r : Ledger × Bool). InOrder r.0 in
    if_intro P (leb l.max_nodes (length l.ids)) (λ _. g)
      (λ _.
        if_intro P (is_some (l.entry info.node_id)) (λ _. g)
          (λ absent. record {
            once = (
              All-Elem (λ k. info.node_id ≢ k) l.ids
                  (λ k at same.
                    ground (arith, absent, (g.known k).0 at, ap (λ i. is_some (l.entry i)) same)),
              g.once,
            );
            known = λ k. (
              (λ h. ground (arith, eq_iff info.node_id k, (g.known k).0)),
              (λ h. ground (arith, eq_iff info.node_id k, (g.known k).1)),
            );
            own = λ k.
                if_intro (AtHome k) (info.node_id == k) (λ e. (eq_iff info.node_id k).0 e)
                  (λ _. g.own k);
          }))

pub strike-InOrder : (l : Ledger) (id : String) → InOrder l → InOrder (strike l id).0
strike-InOrder l id g =
    if_intro (λ (r : Ledger × Bool). InOrder r.0) (is_some (l.entry id))
      (λ _. record {
        once = Apart-keep_if (λ (k : String). k) (λ k. not (id == k)) l.ids g.once;
        known = λ k.
            let kept = Elem-keep_if (λ k. not (id == k)) k l.ids in
            (
              (λ h. ground (arith, kept.0 h, (g.known k).0)),
              (λ h. ground (arith, kept.1, (g.known k).1)),
            );
        own = λ k. if_intro (AtHome k) (id == k) (λ _. tt) (λ _. g.own k);
      })
      (λ _. g)

pub note-InOrder :
    (l : Ledger) (id : String) (cpu mem : Float32) (connections now : ℕ)
    → InOrder l
    → InOrder (note l id cpu mem connections now).0
note-InOrder l id cpu mem connections now g =
    if_intro (λ (r : Ledger × Bool). InOrder r.0) (is_some (l.entry id))
      (λ _. record {
        once = g.once;
        known = λ k.
            let same = is_some-map (heard now cpu mem) (l.entry k) in
            (
              (λ h. ground (arith, same, (g.known k).0)),
              (λ h. ground (arith, same, (g.known k).1)),
            );
        own = λ k.
            if_intro (AtHome k) (id == k) (λ _. heard-AtHome k (l.entry k) now cpu mem (g.own k))
              (λ _. g.own k);
      })
      (λ _. g)

pub purge-InOrder : (l : Ledger) (max : ℕ) → InOrder l → InOrder (purge l max).0
purge-InOrder l max g = record {
  once = Apart-keep_if (λ (k : String). k) (λ k. not (is_stale max (l.entry k))) l.ids g.once;
  known = λ k.
      let kept = Elem-keep_if (λ k. not (is_stale max (l.entry k))) k l.ids in
      let stays = is_some-drop_stale max (l.entry k) in
      (
        (λ h. stays.1 ((g.known k).0 (kept.0 h).0, (kept.0 h).1)),
        (λ h. kept.1 ((g.known k).1 (stays.0 h).0, (stays.0 h).1)),
      );
  own = λ k. stale-AtHome max k (l.entry k) (g.own k);
}

pub increment-InOrder :
    (l : Ledger) → InOrder l → InOrder (ledger.increment_all_missed_heartbeats l)
increment-InOrder l g = record {
  once = g.once;
  known = λ k. rw (is_some-map unheard (l.entry k)) (g.known k);
  own = λ k. unheard-AtHome k (l.entry k) (g.own k);
}
