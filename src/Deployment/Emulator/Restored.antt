-- ===== src/Deployment/Emulator/Restored.antt =====
-- A registry that has lost the emulator's node gets it back in the turn after the fifth failure, if the
-- thread runs on and that turn's two calls arrive.
use Prim.Native.String.{◌++◌}
use mathlib.Core.List
use d_ro_cm.Base.{
  ℕ, ◌+◌, ◌<◌, String, ◌≡◌, sym, ap, ◌∙◌, ◌≢◌, true, false, List, [], ◌∷◌, All, length,
}
use d_ro_cm.Registry.NodeTable.{NodeTable}
use d_ro_cm.Registry.NodeTable.History.{run}
use d_ro_cm.Registry.NodeTable.Invariant.{run-IsValid}
use d_ro_cm.Registry.Service.Outcomes.{IsKnown}
use d_ro_cm.Deployment.{Delivery}
use d_ro_cm.Deployment.Known.{IsUsual, increments}
use d_ro_cm.Deployment.Unknown.{IsNoRegistration}
use d_ro_cm.Deployment.Emulator.{Meeting, World, meet, live}
use d_ro_cm.Deployment.Emulator.Vain.{
  IsAlone, Failing, live_in_vain, live_on, live_none, after-none,
}
use d_ro_cm.Deployment.Emulator.Rejoin.{meet_restores}

live-append :
    (node_id : String) (port : ℕ) (named : node_id ≢ "") (x : World) (es : List Meeting)
    (e : Meeting)
    → All (IsAlone node_id) es
    → e.running ≡ true
    → live node_id port x (List.◌++◌ es (e ∷ [])) ≡ meet node_id port (live node_id port x es) e
live-append node_id port named x [] e alone on =
    live_on node_id port named x e [] on
    ∙ live_none node_id port named (meet node_id port x e)
    ∙ ap (λ y. meet node_id port y e) (sym (live_none node_id port named x))
live-append node_id port named x (d ∷ es) e alone on =
    live_on node_id port named x d (List.◌++◌ es (e ∷ [])) (alone.0.2)
    ∙ live-append node_id port named (meet node_id port x d) es e alone.1 on
    ∙ ap (λ y. meet node_id port y e) (sym (live_on node_id port named x d es (alone.0.2)))

-- The last turn: the thread runs, its two calls and their answers arrive, nobody else registers the
-- node, the registry has room, and what comes between the registration and the heartbeat neither deregisters the node nor makes up the checker's threshold.
abbrev pub IsGood : ℕ → String → NodeTable → Meeting → Type 0
IsGood max id t e =
    All (IsNoRegistration id) e.others
    × (length (run t e.others).nodes < (run t e.others).max_nodes)
    × All (IsUsual max id) e.between
    × (increments e.between < max)
    × (e.running ≡ true)
    × (e.register_delivery ≡ Delivery.delivered)
    × (e.heartbeat_delivery ≡ Delivery.delivered)

-- A registry runs, with a valid table, and does not know the emulator's node, whose id is not
-- empty; the emulator's thread runs on, has counted fewer than five failures and does not register
-- yet; each of its heartbeats arrives, or is lost on the way there or back and ends with a status
-- other than OK; and nobody else registers the node. Then the turn after the fifth failure
-- registers it, if both calls of that turn are answered within their deadlines, the table has room
-- by then, and what other threads do between the registration and the heartbeat neither deregisters
-- the node nor makes up the checker's threshold: the thread has the new session and no failure, and
-- the registry knows the node.
pub restored :
    (node_id : String) (port max n : ℕ) (x : World) (es : List Meeting) (e : Meeting)
    → node_id ≢ ""
    → n < 5
    → n + length es ≡ 5
    → Failing node_id n x
    → All (IsAlone node_id) es
    → IsGood max node_id (live node_id port x es).service.node_table e
    → let y = live node_id port x (List.◌++◌ es (e ∷ [])) in
      (y.thread.session_id ≡ node_id ++ "_" ++ e.roll)
      × (y.thread.needs_reregister ≡ false)
      × (y.thread.consecutive_failures ≡ 0)
      × IsKnown y.service node_id
restored node_id port max n x es e named low five f alone good =
    let (others, room, usual, few, on, arrives, arrives') = good in
    let (wants, runs, v, absent) = live_in_vain node_id port named n x es low five f alone in
    let z = live node_id port x es in
    let still = after-none node_id port named z.service e.others v others absent in
    rw (live-append node_id port named x es e alone on) (
      meet_restores node_id port named max z e wants runs
        (run-IsValid z.service.node_table e.others v) (room, still) usual few arrives arrives')
