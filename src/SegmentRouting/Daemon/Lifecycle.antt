-- ===== src/SegmentRouting/Daemon/Lifecycle.antt =====
-- `init`, `update` and `remove` of `SRMPLSDaemon` (routing/srmpls_daemon.py).
use satgonetem.Base.{
  ℕ, Bool, true, false, Option, none, some, List, [], ◌∷◌, ◌++◌, Text, codes, values, ok, raise,
  if◌then◌else◌, text_eq,
}
use satgonetem.Emulator.{Node}
use satgonetem.SegmentRouting.Manager.{Manager, clear_cache}
use satgonetem.SegmentRouting.Topology.{Paths, Topology}
use satgonetem.SegmentRouting.Routes.{build_sr_gs_routes}
use satgonetem.SegmentRouting.Install.{Batches}
use satgonetem.SegmentRouting.Daemon.{
  Daemon, Outcome, configure_mpls, init_sr_mpls, use_php, apply_sr_mpls_routes, forget_lines,
}

-- `_build_sr_gs_routes` on the daemon
unfoldable pub build_routes : Topology → Manager → Paths → Daemon → Daemon
unfolding build_sr_gs_routes
build_routes t m paths d = record d {
  sr_graph = true;
  sr_lfib = build_sr_gs_routes t m (use_php d) paths;
}

module _ (executes : ℕ → List Text → Bool) (t : Topology) where
  -- `_rebuild_sr_mpls_routing`
  unfoldable pub rebuild_sr_mpls_routing : Bool → Daemon → Outcome (Unit {0})
  unfolding build_routes apply_sr_mpls_routes
  rebuild_sr_mpls_routing init_flag d = elim d.label_manager [
    | none ↦ (ok tt, d)
    | some m ↦
        let start = if init_flag then forget_lines d else d in
        let cleared = record start { label_manager = some (clear_cache m) } in
        elim t.current [
          | raise x ↦ (raise x, cleared)
          | ok paths ↦
              let built = build_routes t (clear_cache m) paths cleared in
              if t.gonetem_is_on
              then apply_sr_mpls_routes executes t init_flag (clear_cache m) built
              else (ok tt, built)
        ]
  ]

  -- `update`
  abbrev pub update : Daemon → Outcome (Unit {0})
  unfolding rebuild_sr_mpls_routing
  update d = rebuild_sr_mpls_routing false d

  -- `init`: any exception is logged and answered by `False`.
  unfoldable pub init : Daemon → Bool × Daemon
  unfolding rebuild_sr_mpls_routing init_sr_mpls configure_mpls
  init d =
      let (r, labelled) = init_sr_mpls t (configure_mpls d) in
      elim r [
        | raise x ↦ (false, labelled)
        | ok _ ↦
            let (q, done) = rebuild_sr_mpls_routing true labelled in
            elim q [ raise x ↦ (false, done) | ok _ ↦ (true, done) ]
      ]

-- `_flush_node`, and `_flush_all_nodes` for a list of nodes
abbrev flush_command : Text
flush_command = codes "ip -f mpls route flush 2>/dev/null; true"

unfoldable pub flush : List Node → Batches
flush [] = []
flush (n ∷ ns) =
    let rest = flush ns in if n.container then (n.id, flush_command ∷ []) ∷ rest else rest

abbrev pub flushed : Topology → Option Node → List Node
flushed t none = values t.satellites ++ values t.ground_stations
flushed t (some n) = n ∷ []

-- `remove`; without a node, all nodes are flushed.
unfoldable pub remove : Topology → Option Node → Daemon → Daemon
unfolding flush
remove t node d = record d {
  label_manager = none;
  sr_lfib = [];
  sr_graph = false;
  prev_sr_gs_routes = [];
  prev_sr_sat_routes = [];
  prev_sr_node_sid_routes = [];
  sent = d.sent ++ flush (flushed t node);
}
