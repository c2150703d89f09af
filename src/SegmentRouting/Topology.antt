-- ===== src/SegmentRouting/Topology.antt =====
-- What the daemon reads of the topology manager, and the interfaces by peer
-- (services/mixins/interface_mgr.py, `_get_interface_to_peer`).
use satgonetem.Base.{
  ℕ, Bool, false, Option, none, some, List, [], ◌∷◌, Text, Dict, put, values, filter, split,
  int_of_text, ℤ, pos, Result, nat_eq, if◌then◌else◌, ◌==◌,
}
use satgonetem.Emulator.{Heap, Node, Interface}

-- Shortest paths over the current graph, by networkx: `dict(all_pairs_dijkstra_path(graph))`, and
-- `shortest_path(graph, …)`.
pub record Paths : Type 0 where
  pub all_pairs : ℕ → Option (ℕ → Option (List ℕ))
  pub shortest_path : ℕ → ℕ → Result (List ℕ)

-- The part of the topology manager in use; `current` is what `get_current_graph` leads to.
pub record Topology : Type 0 where
  pub heap : Heap
  pub satellites : Dict ℕ Node
  pub ground_stations : Dict ℕ Node
  pub current : Result Paths
  pub status : Bool
  pub gonetem_is_on : Bool

abbrev second : List Text → Option Text
second (node ∷ peer ∷ rest) = some peer
second parts = none

-- `int(iface.name.split(".")[1])`; `none` stands for a ValueError or an IndexError.
unfoldable pub peer_id : Interface → Option ℤ
unfolding split int_of_text
peer_id iface = elim (second (split b'.' iface.name)) [ none ↦ none | some w ↦ int_of_text w ]

abbrev is_peer : ℕ → Option ℤ → Bool
is_peer id (some (pos n)) = n == id
is_peer id other = false

-- `_get_interface_to_peer`
unfoldable pub get_interface_to_peer : Heap → List ℕ → ℕ → Option ℕ
unfolding peer_id
get_interface_to_peer heap [] id = none
get_interface_to_peer heap (r ∷ rs) id =
    if is_peer id (peer_id (heap r)) then some r else get_interface_to_peer heap rs id

abbrev add_peer : ℕ → Option ℤ → Dict ℕ ℕ → Dict ℕ ℕ
add_peer r (some (pos n)) d = put n r d
add_peer r other d = d

-- `node_ifaces` of `_build_sr_gs_routes`; negative keys, which no node has, are left out.
unfoldable pub node_ifaces : Heap → List ℕ → Dict ℕ ℕ → Dict ℕ ℕ
unfolding peer_id
node_ifaces heap [] d = d
node_ifaces heap (r ∷ rs) d = node_ifaces heap rs (add_peer r (peer_id (heap r)) d)

abbrev pub addressable_satellites : Topology → List Node
addressable_satellites t = filter (λ n. n.addressable) (values t.satellites)
