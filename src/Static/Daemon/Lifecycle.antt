-- ===== src/Static/Daemon/Lifecycle.antt =====
-- `init`, `update` and `remove` of routing/static_daemon.py. Batches are values: what is submitted to
-- the containers is returned, in order of submission. A failure of a batch that `init` or `update`
-- submits is only logged by the code.
use satgonetem.Base.{
  ℕ, Bool, true, false, ◌&&◌, Option, List, [], ◌∷◌, ◌++◌, map, Text, pop, Result, ok, raise,
  runtime_error, ◌>>◌, ◌>>=◌, map_result, if◌then◌else◌, nat_eq, option_eq, text_eq,
}
use satgonetem.Emulator.{Heap, Node}
use satgonetem.Static.Diff.{del, entry_key}
use satgonetem.Static.Daemon.{
  Nodes, Daemon, Batch, with_lines, populate_routing_tables, apply_routes,
}
use satgonetem.Static.Populate.{ShortestPaths}

-- What the daemon sees and changes in one operation.
pub record World : Type 0 where
  pub daemon : Daemon
  pub nodes : Nodes
  pub batches : List Batch

-- `_apply_ground_station_routes` then `_apply_satellite_routes`; an exception of the first keeps
-- the second from being called, and one of the second comes after the batches of the first.
unfoldable pub apply_all : Heap → World → Result (Unit {0}) × World
unfolding apply_routes
apply_all heap w = elim (apply_routes heap w.nodes.ground_stations) [
  | raise x ↦ (raise x, w)
  | ok gs ↦
      let sent = record w { batches = w.batches ++ gs } in
      elim (apply_routes heap w.nodes.satellites) [
        | raise x ↦ (raise x, sent)
        | ok sats ↦ (ok tt, record sent { batches = sent.batches ++ sats })
      ]
]

abbrev clear_previous : Node → Node
clear_previous n = record n {
  ipv4_routing_table = if n.tables_shared then [] else n.ipv4_routing_table;
  ipv4_previous_routing_table = [];
}

abbrev map_nodes : (Node → Node) → Nodes → Nodes
map_nodes f nodes = record {
  ground_stations = map f nodes.ground_stations;
  satellites = map f nodes.satellites;
}

module _ (summarize : Text → Result Text) (shortest_paths : ShortestPaths) (heap : Heap)
    (version : Option ℕ) where
  -- `init`. The route build stands outside of its `try`.
  unfoldable pub init : World → Result Bool × World
  unfolding populate_routing_tables apply_all
  init w =
      let empty : Daemon = record w.daemon {
        caches = record { source_signatures = []; entry_cache = [] };
      } in
      let (r, d, nodes) =
        populate_routing_tables summarize shortest_paths heap version empty w.nodes in
      elim r [
        | raise x ↦ (raise x, record w { daemon = d; nodes = nodes })
        | ok _ ↦
            let (q, w') =
              apply_all heap (record w { daemon = d; nodes = map_nodes clear_previous nodes }) in
            elim q [ raise x ↦ (ok false, w') | ok _ ↦ (ok true, w') ]
      ]

  -- `update`; `status` is `topology.status`.
  unfoldable pub update : Bool → World → Result (Unit {0}) × World
  unfolding populate_routing_tables apply_all
  update status w =
      let (r, d, nodes) =
        populate_routing_tables summarize shortest_paths heap version w.daemon w.nodes in
      let w' : World = record w { daemon = d; nodes = nodes } in
      elim r [ raise x ↦ (raise x, w') | ok _ ↦ if status then apply_all heap w' else (ok tt, w') ]

abbrev pub all_run : (Batch → Bool) → List Batch → Bool
all_run runs [] = true
all_run runs (b ∷ bs) = runs b && all_run runs bs

-- `_remove_node_routes`; `runs` says whether the container executes the batch or raises.
unfoldable pub remove_node_routes : Heap → (Batch → Bool) → Node → Result (List Batch × Node)
remove_node_routes heap runs n = do
  ks ← map_result (entry_key heap) n.ipv4_routing_table
  let jobs = with_lines n.id (map del ks) []
  if all_run runs jobs then ok tt else raise runtime_error
  ok (jobs, record n { ipv4_routing_table = []; ipv4_previous_routing_table = [] })

-- The loop of `remove` for all nodes: an exception is logged, and the node keeps its tables.
unfoldable pub remove_each : Heap → (Batch → Bool) → List Node → List Batch × List Node
unfolding remove_node_routes
remove_each heap runs [] = ([], [])
remove_each heap runs (n ∷ ns) =
    let (batches, ns') = remove_each heap runs ns in
    elim (remove_node_routes heap runs n) [
      | raise x ↦ (batches, n ∷ ns')
      | ok (jobs, n') ↦ (jobs ++ batches, n' ∷ ns')
    ]

-- `remove()`, for all nodes
unfoldable pub remove : Heap → (Batch → Bool) → World → World
unfolding remove_each
remove heap runs w =
    let (sat_batches, sats) = remove_each heap runs w.nodes.satellites in
    let (gs_batches, gs) = remove_each heap runs w.nodes.ground_stations in
    record {
      daemon = record w.daemon { caches = record { source_signatures = []; entry_cache = [] } };
      nodes = record { ground_stations = gs; satellites = sats };
      batches = w.batches ++ (sat_batches ++ gs_batches);
    }

-- `remove(node)`: the rows of the caches go first, and an exception of the removal leaves it.
unfoldable pub remove_one :
    Heap → (Batch → Bool) → Node → Daemon → Result (List Batch × Node) × Daemon
unfolding remove_node_routes
remove_one heap runs n d = (
  remove_node_routes heap runs n,
  record d {
    caches = record {
      source_signatures = pop n.id d.caches.source_signatures;
      entry_cache = pop n.id d.caches.entry_cache;
    };
  },
)
