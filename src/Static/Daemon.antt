-- ===== src/Static/Daemon.antt =====
-- The daemon of routing/static_daemon.py: interface maps, the route build for every node, rotation
-- of the tables, and the batches for the containers. The graph is at hand, and comes in as
-- `shortest_paths`.
pub mod Rounds
pub mod Sources
pub mod Lifecycle
pub mod Removal
use satgonetem.Base.{
  ℕ, Bool, true, false, not, ◌&&◌, Option, none, some, List, [], ◌∷◌, ◌++◌, map, Text, Dict, get,
  put, pop, filter, mem, length, Result, ok, raise, or_raise, key_error, runtime_error, ◌>>◌, ◌>>=◌,
  map_result, if◌then◌else◌, ◌==◌, nat_eq, option_eq, ◌||◌, text_eq, codes, split, is_digit,
  is_prefix, int_of_text, ℤ, pos, negsuc,
}
use satgonetem.Emulator.{Heap, Interface, Node, RoutingEntry, get_iname}
use satgonetem.Static.Ifaces.{peer_iface_map}
use satgonetem.Static.Diff.{Line, del, entry_key, emit_batch_commands}
use satgonetem.Static.Install.{Signature, Caches, Source, install_source_routes}
use satgonetem.Static.Populate.{ShortestPaths, all_next_hops, signature_of}

-- The nodes, as `topology.ground_stations.values()` and `topology.satellites.values()`.
pub record Nodes : Type 0 where
  pub ground_stations : List Node
  pub satellites : List Node

-- `dst_array`: the ground stations and the addressable satellites.
abbrev pub destinations : Nodes → List Node
destinations nodes = nodes.ground_stations ++ filter (λ n. n.addressable) nodes.satellites

abbrev pub node_ids : List Node → List ℕ
node_ids = map (λ n. n.id)

-- `summarized_ips`, by the `summarize` of utils/ip_utils.py at prefix 15
abbrev pub summaries : (Text → Result Text) → Heap → List Node → Dict ℕ Text → Result (Dict ℕ Text)
summaries summarize heap [] d = ok d
summaries summarize heap (n ∷ ns) d = do
  address ← summarize (heap n.loopback).ipv4
  summaries summarize heap ns (put n.id address d)

abbrev pub IfaceMaps : Type 0
IfaceMaps = Dict ℕ (Dict ℕ ℕ) × Dict ℕ (Dict ℕ ℕ)

-- `StaticRoutingDaemon`
pub record Daemon : Type 0 where
  pub caches : Caches
  pub iface_cache : Option IfaceMaps
  pub iface_cache_version : Option ℕ

abbrev iface_maps_of : Heap → List Node → Dict ℕ (Dict ℕ ℕ) → Dict ℕ (Dict ℕ ℕ)
iface_maps_of heap [] d = d
iface_maps_of heap (n ∷ ns) d =
    iface_maps_of heap ns (put n.id (peer_iface_map heap n.interfaces []) d)

abbrev build_iface_maps : Heap → Nodes → IfaceMaps
build_iface_maps heap nodes =
    (iface_maps_of heap nodes.ground_stations [], iface_maps_of heap nodes.satellites [])

-- `_prebuild_iface_maps`; the version is `none` where the topology has no integer there.
unfoldable pub prebuild_iface_maps : Heap → Option ℕ → Nodes → Daemon → IfaceMaps × Daemon
unfolding peer_iface_map
prebuild_iface_maps heap none nodes d = (build_iface_maps heap nodes, d)
prebuild_iface_maps heap (some version) nodes d =
    let fresh = build_iface_maps heap nodes in
    let rebuilt : IfaceMaps × Daemon =
      (fresh, record d { iface_cache = some fresh; iface_cache_version = some version }) in
    elim d.iface_cache [
      | none ↦ rebuilt
      | some maps ↦ if d.iface_cache_version == some version then (maps, d) else rebuilt
    ]

-- `_equalize_routing_tables`, for one node; the new current table is another list.
unfoldable pub equalize : Node → Node
equalize n = record n {
  ipv4_routing_table = [];
  ipv4_previous_routing_table = n.ipv4_routing_table;
  tables_shared = false;
}

module _ (heap : Heap) (dst_array : List Node) (next_hops : List (Dict ℕ ℕ))
    (ips : Dict ℕ Text) where
  abbrev pub source_of : Dict ℕ (Dict ℕ ℕ) → Node → Text → Source
  source_of ifaces n summary = record {
    src_id = n.id;
    src_ifaces = get n.id ifaces;
    src_summary = summary;
    src_name = n.name;
    summarized_ips = ips;
    prefix = 15;
  }

  -- `summarized_ips[src_id]` and the call of `_install_source_routes` for one source
  abbrev pub install_one : Dict ℕ (Dict ℕ ℕ) → Caches → Node → Result (Caches × Node)
  install_one ifaces c n = do
    summary ← or_raise (get n.id ips) key_error
    install_source_routes heap c n (source_of ifaces n summary) dst_array (node_ids dst_array)
        (signature_of next_hops (length dst_array) n.id)

  -- One of the two loops over the sources. An exception ends it, and leaves what was written.
  unfoldable pub install_all :
      Dict ℕ (Dict ℕ ℕ) → Caches → List Node → Result (Unit {0}) × Caches × List Node
  install_all ifaces c [] = (ok tt, c, [])
  install_all ifaces c (n ∷ ns) = elim (install_one ifaces c n) [
    | raise x ↦ (raise x, c, n ∷ ns)
    | ok (c', n') ↦ let (r, c'', ns') = install_all ifaces c' ns in (r, c'', n' ∷ ns')
  ]

-- `{src_id: … if src_id in active_source_ids}`
abbrev pub prune {ℓ} : {V : Type ℓ} → List ℕ → Dict ℕ V → Dict ℕ V
prune active d = filter (λ p. mem p.0 active) d

abbrev prune_caches : List ℕ → Caches → Caches
prune_caches active c = record {
  source_signatures = prune active c.source_signatures;
  entry_cache = prune active c.entry_cache;
}

-- The part of `_populate_dijkstra_igraph` before its loops over the sources.
abbrev pub gather :
    (Text → Result Text) → ShortestPaths → Heap → Nodes → Result (List (Dict ℕ ℕ) × Dict ℕ Text)
gather summarize shortest_paths heap nodes = do
  next_hops ← all_next_hops shortest_paths (node_ids (destinations nodes))
  ips ← summaries summarize heap (nodes.ground_stations ++ nodes.satellites) []
  ok (next_hops, ips)

-- `_populate_dijkstra_igraph`
unfoldable pub populate_dijkstra_igraph :
    (Text → Result Text)
    → ShortestPaths
    → Heap
    → IfaceMaps
    → Caches
    → Nodes
    → Result (Unit {0}) × Caches × Nodes
unfolding install_all
populate_dijkstra_igraph summarize shortest_paths heap (gs_ifaces, sat_ifaces) c nodes =
    let dst_array = destinations nodes in
    elim (gather summarize shortest_paths heap nodes) [
      | raise x ↦ (raise x, c, nodes)
      | ok (next_hops, ips) ↦
          let (r, c', gs) =
            install_all heap dst_array next_hops ips gs_ifaces c nodes.ground_stations in
          let after_gs = record nodes { ground_stations = gs } in
          elim r [
            | raise x ↦ (raise x, c', after_gs)
            | ok _ ↦
                let (q, c'', sats) =
                  install_all heap dst_array next_hops ips sat_ifaces c' nodes.satellites in
                let after = record after_gs { satellites = sats } in
                elim q [
                  | raise x ↦ (raise x, c'', after)
                  | ok _ ↦ (ok tt, prune_caches (node_ids gs ++ node_ids sats) c'', after)
                ]
          ]
    ]

-- `_populate_routing_tables`, where the topology takes no routes from a file
unfoldable pub populate_routing_tables :
    (Text → Result Text)
    → ShortestPaths
    → Heap
    → Option ℕ
    → Daemon
    → Nodes
    → Result (Unit {0}) × Daemon × Nodes
unfolding equalize prebuild_iface_maps populate_dijkstra_igraph
populate_routing_tables summarize shortest_paths heap version d nodes =
    let rotated : Nodes = record {
      ground_stations = map equalize nodes.ground_stations;
      satellites = map equalize nodes.satellites;
    } in
    let (ifaces, d') = prebuild_iface_maps heap version rotated d in
    let (r, c, nodes') =
      populate_dijkstra_igraph summarize shortest_paths heap ifaces d'.caches rotated in
    (r, record d' { caches = c }, nodes')

-- The node identifier of a container, and the lines of its batch.
abbrev pub Batch : Type 0
Batch = ℕ × List Line

abbrev pub with_lines : ℕ → List Line → List Batch → List Batch
with_lines i [] jobs = jobs
with_lines i (l ∷ ls) jobs = (i, l ∷ ls) ∷ jobs

-- The jobs of `_apply_ground_station_routes` and `_apply_satellite_routes`
unfoldable pub apply_routes : Heap → List Node → Result (List Batch)
apply_routes heap [] = ok []
apply_routes heap (n ∷ ns) = do
  live ← map_result (λ r. get_iname (heap r)) n.interfaces
  lines ←
      emit_batch_commands heap n.tables_shared n.ipv4_previous_routing_table n.ipv4_routing_table
        (some live)
  jobs ← apply_routes heap ns
  ok (with_lines n.id lines jobs)
