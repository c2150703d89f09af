-- ===== src/SegmentRouting/Install.antt =====
-- The installation of routes, node by node (routing/srmpls_daemon.py, the `_apply_sr_…` methods).
-- A command batch is what is handed to the container of a node, in order. Workers run the nodes
-- side by side; each touches its own row, so that the rows are written here node after node.
pub mod Incremental
pub mod Neighbors
use satgonetem.Base.{
  ℕ, Bool, true, false, not, ◌||◌, Option, none, some, List, [], ◌∷◌, ◌++◌, Text, codes, decimal,
  Dict, get, put, values, length, filter, mem, map_result, Result, ok, raise, ◌>>=◌, ◌>>◌,
  value_error, attribute_error, nat_eq, list_eq, text_eq, if◌then◌else◌, ◌==◌, ℤ, pos, negsuc,
}
use satgonetem.Emulator.{Heap, Node, Interface, get_iname}
use satgonetem.SegmentRouting.Manager.{Manager, get_node_sid}
use satgonetem.SegmentRouting.Entries.{
  NodeSidEntry, ForwardEntry, LabelStackEntry, node_sid_command, forward_command,
  label_stack_command,
}
use satgonetem.SegmentRouting.Topology.{
  Topology, peer_id, get_interface_to_peer, addressable_satellites,
}
use satgonetem.SegmentRouting.Routes.{Lfib, no_address, next_hop_of}

-- The lines last installed on each node, and the batches handed over so far.
abbrev pub Lines : Type 0
Lines = Dict ℕ (List Text)

abbrev pub Batches : Type 0
Batches = List (ℕ × List Text)

abbrev pub lines_at : ℕ → Lines → List Text
lines_at id prev = elim (get id prev) [ none ↦ [] | some lines ↦ lines ]

-- `[line for line in route_commands if line not in prev_set]`
abbrev pub changed_lines : List Text → List Text → List Text
changed_lines prev commands = filter (λ line. not (mem line prev)) commands

-- `if changed: …`: `executes` says whether the container runs the batch or raises, which is logged.
abbrev pub hand_over :
    (ℕ → List Text → Bool) → ℕ → List Text → Lines × Batches → List Text → Lines × Batches
hand_over executes id commands (prev, sent) [] = (prev, sent)
hand_over executes id commands (prev, sent) (line ∷ lines) = (
  if executes id (line ∷ lines) then put id commands prev else prev,
  sent ++ (id, line ∷ lines) ∷ [],
)

-- The end of the three install functions.
unfoldable pub install_changed :
    (ℕ → List Text → Bool) → ℕ → List Text → Lines × Batches → Lines × Batches
install_changed executes id commands (prev, sent) =
    hand_over executes id commands (prev, sent) (changed_lines (lines_at id prev) commands)

abbrev pub own_line : Option ℕ → Text → List Text
own_line none name = []
own_line (some sid) name = node_sid_command (record { node_sid = sid; node_name = name }) ∷ []

abbrev name_or : Option Node → Text → Text
name_or none name = name
name_or (some n) name = n.name

abbrev pub name_in : Option Node → Dict ℕ Node → ℕ → Text
name_in (some n) others id = n.name
name_in none others id = name_or (get id others) (codes "Node" ++ decimal id)

-- the label of a neighbour, for the number in the name of an interface
abbrev pub neighbor : Manager → Option ℤ → Option (ℕ × ℕ)
neighbor m (some (pos id)) = elim (get_node_sid m id) [ none ↦ none | some sid ↦ some (id, sid) ]
neighbor m other = none

abbrev pub entry_toward : Topology → Option (ℕ × Text) → Option (ℕ × ℕ) → Option ForwardEntry
entry_toward t (some (iface, ip)) (some (id, sid)) = some (record {
  target_sid = sid;
  next_hop = ip;
  interface = iface;
  target_name = name_in (get id t.satellites) t.ground_stations id;
})
entry_toward t hop neighbor_sid = none

-- An interface whose peer was never set has no such attribute.
abbrev pub has_peer : Heap → ℕ → Bool
has_peer heap iface = elim (heap iface).peer [ none ↦ false | some peer ↦ true ]

-- `fwd_entry` for an interface with a peer; `none` stands for `continue`.
unfoldable pub entry_of : Topology → Manager → ℕ → Option ForwardEntry
unfolding next_hop_of peer_id
entry_of t m iface =
    entry_toward t (next_hop_of t.heap (some iface)) (neighbor m (peer_id (t.heap iface)))

unfoldable pub forward_entry : Topology → Manager → ℕ → Result (Option ForwardEntry)
unfolding entry_of
forward_entry t m iface =
    if has_peer t.heap iface then ok (entry_of t m iface) else raise attribute_error

abbrev pub add_forward : Option ForwardEntry → List ForwardEntry → List ForwardEntry
add_forward none entries = entries
add_forward (some e) entries = e ∷ entries

unfoldable pub forward_entries : Topology → Manager → List ℕ → Result (List ForwardEntry)
unfolding forward_entry
forward_entries t m [] = ok []
forward_entries t m (r ∷ rs) = do
  entry ← forward_entry t m r
  entries ← forward_entries t m rs
  ok (add_forward entry entries)

-- The line for a ground station, in the last loop of `install_sr_forwarding`.
unfoldable pub loopback_line : Heap → Node → Node → Result (List Text)
unfolding get_interface_to_peer
loopback_line heap sat gs = elim (get_interface_to_peer heap sat.interfaces gs.id) [
  | none ↦ ok []
  | some iface ↦ elim (heap iface).peer [
    | none ↦ raise attribute_error
    | some peer ↦ if (heap gs.loopback).ipv4 == [] then ok [] else do
      iface_name ← get_iname (heap iface)
      ok (
          (codes "ip route replace "
            ++ (heap gs.loopback).ipv4
            ++ codes "/32 via "
            ++ (heap peer).ipv4
            ++ codes " dev "
            ++ iface_name)
          ∷ [])
  ]
]

abbrev pub loopback_lines : Heap → Node → List Node → Result (List Text)
unfolding loopback_line
loopback_lines heap sat [] = ok []
loopback_lines heap sat (gs ∷ rest) = do
  line ← loopback_line heap sat gs
  lines ← loopback_lines heap sat rest
  ok (line ++ lines)

-- `route_commands` of `install_sr_forwarding`, for a satellite with label `my_sid`
unfoldable pub forwarding_commands : Topology → Manager → Node → ℕ → Result (List Text)
unfolding forward_entries
forwarding_commands t m sat my_sid = do
  entries ← forward_entries t m sat.interfaces
  forwards ← map_result (forward_command t.heap) entries
  loopbacks ← loopback_lines t.heap sat (values t.ground_stations)
  ok (own_line (some my_sid) sat.name ++ forwards ++ loopbacks)

-- `route_commands` of `install_gs_routes` and of `install_satellite_routes`
unfoldable pub source_commands : Heap → Manager → Lfib → Node → Result (List Text)
source_commands heap m lfib n = do
  pushes ← map_result (label_stack_command heap) (elim (get n.id lfib) [ none ↦ [] | some es ↦ es ])
  ok (own_line (get_node_sid m n.id) n.name ++ pushes)

-- One worker: an exception before the batch is logged, and leaves everything as it was.
abbrev install_on :
    (ℕ → List Text → Bool) → (Node → Result (List Text)) → Node → Lines × Batches → Lines × Batches
unfolding install_changed
install_on executes commands n s = elim (commands n) [
  | raise x ↦ s
  | ok lines ↦ if n.container then install_changed executes n.id lines s else s
]

unfoldable pub install_nodes :
    (ℕ → List Text → Bool)
    → (Node → Result (List Text))
    → List Node
    → Lines × Batches
    → Lines × Batches
unfolding install_changed
install_nodes executes commands [] s = s
install_nodes executes commands (n ∷ ns) s =
    install_nodes executes commands ns (install_on executes commands n s)

-- `ThreadPoolExecutor(max_workers=…)` with at most one worker for a node raises for no node.
abbrev pub pool {ℓ} : {A : Type ℓ} → List A → Result (Unit {0})
pool [] = raise value_error
pool (a ∷ rest) = ok tt

abbrev node_commands : Topology → Manager → Node → Result (List Text)
unfolding forwarding_commands
node_commands t m sat = elim (get_node_sid m sat.id) [
  | none ↦ ok []
  | some my_sid ↦ forwarding_commands t m sat my_sid
]

-- `_apply_sr_node_sids_to_satellites`, with a graph at hand
unfoldable pub apply_sr_node_sids_to_satellites :
    (ℕ → List Text → Bool) → Topology → Manager → Lines × Batches → Result (Lines × Batches)
unfolding install_nodes forwarding_commands
apply_sr_node_sids_to_satellites executes t m s = do
  pool (values t.satellites)
  ok (install_nodes executes (node_commands t m) (values t.satellites) s)

-- `_apply_sr_routes_to_ground_stations`
unfoldable pub apply_sr_routes_to_ground_stations :
    (ℕ → List Text → Bool) → Topology → Manager → Lfib → Lines × Batches → Result (Lines × Batches)
unfolding install_nodes source_commands
apply_sr_routes_to_ground_stations executes t m lfib s = do
  pool (values t.ground_stations)
  ok (install_nodes executes (source_commands t.heap m lfib) (values t.ground_stations) s)

-- `_apply_sr_routes_to_satellites`
unfoldable pub apply_sr_routes_to_satellites :
    (ℕ → List Text → Bool) → Topology → Manager → Lfib → Lines × Batches → Result (Lines × Batches)
unfolding install_nodes source_commands
apply_sr_routes_to_satellites executes t m lfib s = do
  pool (values t.satellites)
  ok (install_nodes executes (source_commands t.heap m lfib) (addressable_satellites t) s)
