-- ===== src/Tests/SegmentRoutes.antt =====
-- Labels, stacks and installed lines in a line of three satellites.
use satgonetem.Base.{
  ℕ, zero, suc, ◌+◌, ◌≤◌, ◌≡◌, ◌↔◌, refl, true, false, Option, none, some, List, [], ◌∷◌, Text,
  codes, mem, ok, raise, ◌>>=◌, arith, text_eq, nat_eq, list_eq, if◌then◌else◌, value_error, ◌==◌,
}
use satgonetem.Emulator.{Heap, Interface, Node, satellite}
use satgonetem.SegmentRouting.Manager.{
  NodeSid, Manager, new_manager, allocate_node_sid, get_node_sid, get_node_for_sid, set_custom_path,
  get_custom_path, get_label_stack_for_path, get_sr_route_for_destination, mpls_label_min,
  mpls_label_max,
}
use satgonetem.SegmentRouting.Manager.Labels.{
  Reachable, start, next, allocate, set_path, get_node_sid-get_node_for_sid, get_node_sid-range,
}
use satgonetem.SegmentRouting.Manager.Paths.{IsPath, get_custom_path-IsPath}
use satgonetem.SegmentRouting.Manager.Stacks.{
  get_label_stack_for_path_lem, get_sr_route_for_destination-again,
  set_custom_path-get_sr_route_for_destination,
}
use satgonetem.SegmentRouting.Entries.{LabelStackEntry}
use satgonetem.SegmentRouting.Topology.{Paths, Topology, peer_id}
use satgonetem.SegmentRouting.Routes.{route_to, next_hop_of}
use satgonetem.SegmentRouting.Forwarding.{Follows, AllPeered, Connected, route_to-Follows}
use satgonetem.SegmentRouting.Daemon.{Daemon, new_daemon, init_sr_mpls, daemon_node_sid}
use satgonetem.SegmentRouting.Daemon.Lifecycle.{init}
use satgonetem.SegmentRouting.Daemon.Managed.{
  created, operated, initialise, daemon_node_sid-inverse,
}
use satgonetem.SegmentRouting.Daemon.Allocation.{init_sr_mpls-labels}

-- a manager with labels for the nodes 1, 2 and 3
abbrev sid_of : ℕ → NodeSid
sid_of i = record { node_id = i; label = 16000 + i; node_name = codes "Sat" }

abbrev three_labels : Manager
three_labels = record {
  node_sid_base = 16000;
  adj_sid_base = 100000;
  node_sids = (1, sid_of 1) ∷ (2, sid_of 2) ∷ (3, sid_of 3) ∷ [];
  reverse_sid_map = (16001, 1) ∷ (16002, 2) ∷ (16003, 3) ∷ [];
  custom_paths = [];
  label_stack_cache = [];
}

abbrev two_labels : Manager
two_labels = record three_labels {
  node_sids = (1, sid_of 1) ∷ (2, sid_of 2) ∷ [];
  reverse_sid_map = (16001, 1) ∷ (16002, 2) ∷ [];
}

abbrev one_label : Manager
one_label = record three_labels {
  node_sids = (1, sid_of 1) ∷ [];
  reverse_sid_map = (16001, 1) ∷ [];
}

three_labels-Reachable : Reachable three_labels
unfolding new_manager allocate_node_sid
three_labels-Reachable =
    next {m = two_labels}
      (next {m = one_label}
        (next {m = new_manager 16000 100000} (start 16000 100000)
          (allocate 1 (codes "Sat") (sid_of 1) refl))
        (allocate 2 (codes "Sat") (sid_of 2) refl))
      (allocate 3 (codes "Sat") (sid_of 3) refl)

get_node_sid-get_node_for_sid_example :
    (get_node_sid three_labels 2 ≡ some 16002) ↔ (get_node_for_sid three_labels 16002 ≡ some 2)
get_node_sid-get_node_for_sid_example =
    get_node_sid-get_node_for_sid three_labels 2 16002 three_labels-Reachable

label_of_two : get_node_sid three_labels 2 ≡ some 16002
unfolding get_node_sid
label_of_two = refl

get_node_sid-range_example :
    (16002 ≡ 16000 + 2) × (mpls_label_min ≤ 16002) × (16002 ≤ mpls_label_max)
get_node_sid-range_example =
    get_node_sid-range three_labels 2 16002 three_labels-Reachable label_of_two

get_label_stack_for_path_lem_example :
    (get_label_stack_for_path three_labels [] false ≡ ok [])
    × (get_label_stack_for_path three_labels (1 ∷ []) false ≡ ok [])
    × (get_label_stack_for_path three_labels (1 ∷ 2 ∷ 3 ∷ []) true ≡ ok (16002 ∷ []))
    × (get_label_stack_for_path three_labels (1 ∷ 2 ∷ 3 ∷ []) false ≡ ok (16002 ∷ 16003 ∷ []))
get_label_stack_for_path_lem_example =
    get_label_stack_for_path_lem three_labels 1 3 (2 ∷ []) false three_labels-Reachable

abbrev with_path : Manager
with_path = record three_labels { custom_paths = ((1, 3), 1 ∷ 2 ∷ 3 ∷ []) ∷ [] }

path_stored : set_custom_path three_labels 1 3 (1 ∷ 2 ∷ 3 ∷ []) ≡ ok with_path
unfolding set_custom_path
path_stored = refl

set_custom_path-get_sr_route_for_destination_example :
    get_sr_route_for_destination with_path 1 3 none false ≡ (
      get_label_stack_for_path with_path (1 ∷ 2 ∷ 3 ∷ []) false >>= λ labels.
      ok ((1 ∷ 2 ∷ 3 ∷ [], labels), with_path))
set_custom_path-get_sr_route_for_destination_example =
    set_custom_path-get_sr_route_for_destination three_labels with_path 1 3 (1 ∷ 2 ∷ 3 ∷ []) none
      false path_stored

path_kept : get_custom_path with_path 1 3 ≡ some (1 ∷ 2 ∷ 3 ∷ [])
unfolding get_custom_path
path_kept = refl

get_custom_path-IsPath_example : IsPath (1, 3) (1 ∷ 2 ∷ 3 ∷ [])
get_custom_path-IsPath_example =
    get_custom_path-IsPath with_path 1 3 (1 ∷ 2 ∷ 3 ∷ [])
      (next {m = three_labels} three_labels-Reachable (set_path 1 3 (1 ∷ 2 ∷ 3 ∷ []) path_stored))
      path_kept

abbrev with_stack : Manager
with_stack = record three_labels { label_stack_cache = ((1, 3), 16002 ∷ 16003 ∷ []) ∷ [] }

stack_stored :
    get_sr_route_for_destination three_labels 1 3 (some (1 ∷ 2 ∷ 3 ∷ [])) false
    ≡ ok ((1 ∷ 2 ∷ 3 ∷ [], 16002 ∷ 16003 ∷ []), with_stack)
unfolding get_sr_route_for_destination
stack_stored = refl

get_sr_route_for_destination-again_example :
    get_sr_route_for_destination with_stack 1 3 (some (1 ∷ 2 ∷ 3 ∷ [])) false
    ≡ ok ((1 ∷ 2 ∷ 3 ∷ [], 16002 ∷ 16003 ∷ []), with_stack)
get_sr_route_for_destination-again_example =
    get_sr_route_for_destination-again three_labels with_stack 1 3 (some (1 ∷ 2 ∷ 3 ∷ [])) false
      (1 ∷ 2 ∷ 3 ∷ [], 16002 ∷ 16003 ∷ []) stack_stored

-- Sat1.2 and its peer Sat2.1, Sat2.3 and its peer Sat3.2
abbrev iface_named : Text → Text → ℕ → Interface
iface_named name ipv4 peer = record {
  ipv4 = ipv4;
  name = name;
  peer = some peer;
  is_monitored = false;
  is_active = true;
  previously_active = true;
  type = codes "isl";
  delay = 0;
  mac_address = none;
}

abbrev line_heap : Heap
line_heap zero = iface_named (codes "Sat1.2") (codes "172.0.0.0") 1
line_heap (suc zero) = iface_named (codes "Sat2.1") (codes "172.0.0.1") 0
line_heap (suc (suc zero)) = iface_named (codes "Sat2.3") (codes "172.0.0.2") 3
line_heap (suc (suc (suc n))) = iface_named (codes "Sat3.2") (codes "172.0.0.3") 2

abbrev sat : ℕ → Text → List ℕ → Node
sat id name interfaces = record {
  kind = satellite;
  name = name;
  id = id;
  ipv4_routing_table = [];
  ipv4_previous_routing_table = [];
  tables_shared = false;
  interfaces = interfaces;
  loopback = 0;
  container = true;
  addressable = true;
}

abbrev sat3 : Node
sat3 = sat 3 (codes "Sat3") (3 ∷ [])

abbrev no_paths : Paths
no_paths = record { all_pairs = λ src. none; shortest_path = λ src dst. raise value_error }

abbrev line : Topology
line = record {
  heap = line_heap;
  satellites =
      (1, sat 1 (codes "Sat1") (0 ∷ [])) ∷ (2, sat 2 (codes "Sat2") (1 ∷ 2 ∷ [])) ∷ (3, sat3) ∷ [];
  ground_stations = [];
  current = ok no_paths;
  status = true;
  gonetem_is_on = true;
}

abbrev iface_to : ℕ → Option ℕ
iface_to peer = if peer == 2 then some 0 else none

abbrev entry_to_sat3 : LabelStackEntry
entry_to_sat3 = record {
  destination = codes "172.0.0.0";
  label_stack = 16003 ∷ [];
  next_hop = codes "172.0.0.1";
  interface = 0;
  fec_prefix = 32;
}

routed_to_sat3 :
    route_to line_heap three_labels false iface_to sat3 (some (1 ∷ 2 ∷ 3 ∷ [])) ≡ some entry_to_sat3
unfolding route_to get_label_stack_for_path
routed_to_sat3 = refl

line_peers : AllPeered line three_labels (1 ∷ 2 ∷ [])
line_peers zero h = refl
line_peers (suc zero) h = refl
line_peers (suc (suc zero)) h = refl
line_peers (suc (suc (suc n))) h = refl

line-Connected : Connected line three_labels 2 (3 ∷ [])
unfolding peer_id next_hop_of
line-Connected = (
  (sat 2 (codes "Sat2") (1 ∷ 2 ∷ []), 2, codes "172.0.0.3", refl, line_peers, refl, refl, refl),
  tt,
)

route_to-Follows_example :
    (iface_to 2 ≡ some 0) × Follows line three_labels 2 (16003 ∷ []) (2 ∷ 3 ∷ [])
route_to-Follows_example =
    route_to-Follows line three_labels sat3 1 2 (3 ∷ []) iface_to entry_to_sat3
      three_labels-Reachable line-Connected routed_to_sat3

abbrev started : Daemon
started = (init (λ id lines. true) line new_daemon).1

started_labels : daemon_node_sid started 2 ≡ some 16002
unfolding daemon_node_sid init get_node_sid
started_labels = refl

daemon_node_sid-inverse_example :
    (◌≡◌ {A = ℕ} 2 2) × (mpls_label_min ≤ 16002) × (16002 ≤ mpls_label_max)
daemon_node_sid-inverse_example =
    daemon_node_sid-inverse started 2 2 16002
      (operated created (initialise (λ id lines. true) line)) started_labels started_labels

small_labels : (i : ℕ) → mem i (1 ∷ 2 ∷ 3 ∷ []) ≡ true → 16000 + i ≤ mpls_label_max
small_labels i h = ground arith

init_sr_mpls-labels_example :
    ((init_sr_mpls line new_daemon).0 ≡ ok tt)
    × ((i : ℕ)
        → mem i (1 ∷ 2 ∷ 3 ∷ []) ≡ true
        → daemon_node_sid (init_sr_mpls line new_daemon).1 i ≡ some (16000 + i))
init_sr_mpls-labels_example = init_sr_mpls-labels line new_daemon small_labels
