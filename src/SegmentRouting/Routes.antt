-- ===== src/SegmentRouting/Routes.antt =====
-- The routes with label stacks: `_build_sr_gs_routes` of routing/srmpls_daemon.py.
use satgonetem.Base.{
  ℕ, Bool, ◌||◌, Option, none, some, List, [], ◌∷◌, ◌++◌, Text, codes, Dict, get, put, Result, ok,
  raise, nat_eq, list_eq, text_eq, if◌then◌else◌, ◌==◌, values,
}
use satgonetem.Emulator.{Heap, Node}
use satgonetem.SegmentRouting.Manager.{Manager, get_custom_path, get_label_stack_for_path}
use satgonetem.SegmentRouting.Entries.{LabelStackEntry}
use satgonetem.SegmentRouting.Topology.{Paths, Topology, node_ifaces, addressable_satellites}

abbrev pub Lfib : Type 0
Lfib = Dict ℕ (List LabelStackEntry)

abbrev pub iface_lookup : Heap → List Node → Dict ℕ (Dict ℕ ℕ) → Dict ℕ (Dict ℕ ℕ)
unfolding node_ifaces
iface_lookup heap [] d = d
iface_lookup heap (n ∷ ns) d = iface_lookup heap ns (put n.id (node_ifaces heap n.interfaces []) d)

-- a custom path that is not empty, or the default
abbrev pub chosen_path : Option (List ℕ) → Option (List ℕ) → Option (List ℕ)
chosen_path (some (x ∷ path)) default_path = some (x ∷ path)
chosen_path custom default_path = default_path

-- `not next_hop_ip or next_hop_ip == "0.0.0.0"`
abbrev pub no_address : Text → Bool
no_address ip = ip == [] || ip == codes "0.0.0.0"

-- the address of the peer of an interface, where it has one
unfoldable pub next_hop_of : Heap → Option ℕ → Option (ℕ × Text)
next_hop_of heap none = none
next_hop_of heap (some iface) = elim (heap iface).peer [
  | none ↦ none
  | some peer ↦ let ip = (heap peer).ipv4 in if no_address ip then none else some (iface, ip)
]

abbrev stack_entry : Heap → Node → ℕ × Text → Result (List ℕ) → Option LabelStackEntry
stack_entry heap dst (iface, ip) (raise x) = none
stack_entry heap dst (iface, ip) (ok labels) = some (record {
  destination = (heap dst.loopback).ipv4;
  label_stack = labels;
  next_hop = ip;
  interface = iface;
  fec_prefix = 32;
})

-- One round of the inner loop; `none` stands for `continue` and for an exception, which is logged.
-- `iface_to` finds the interface to the first hop.
unfoldable pub route_to :
    Heap → Manager → Bool → (ℕ → Option ℕ) → Node → Option (List ℕ) → Option LabelStackEntry
unfolding next_hop_of
route_to heap m use_php iface_to dst (some (src ∷ first_hop ∷ path)) =
    elim (next_hop_of heap (iface_to first_hop)) [
      | none ↦ none
      | some hop ↦ stack_entry heap dst hop (get_label_stack_for_path m (first_hop ∷ path) use_php)
    ]
route_to heap m use_php iface_to dst path = none

abbrev pub add_entry : Option LabelStackEntry → List LabelStackEntry → List LabelStackEntry
add_entry none entries = entries
add_entry (some e) entries = e ∷ entries

abbrev or_nothing : Option (Dict ℕ ℕ) → Dict ℕ ℕ
or_nothing none = []
or_nothing (some d) = d

abbrev entries_at : Option (List LabelStackEntry) → List LabelStackEntry
entries_at none = []
entries_at (some entries) = entries

module _ (heap : Heap) (m : Manager) (use_php : Bool) (iface_to : ℕ → Option ℕ)
    (path_to : ℕ → Option (List ℕ)) where
  -- The inner loop, over the destinations.
  unfoldable pub routes_from : ℕ → List Node → List LabelStackEntry
  unfolding route_to
  routes_from src_id [] = []
  routes_from src_id (dst ∷ dsts) =
      let rest = routes_from src_id dsts in
      if src_id == dst.id
      then rest
      else add_entry
          (route_to heap m use_php iface_to dst
            (chosen_path (get_custom_path m src_id dst.id) (path_to dst.id)))
          rest

module _ (heap : Heap) (m : Manager) (use_php : Bool) (paths : Paths) (ifaces : Dict ℕ (Dict ℕ ℕ))
    (dsts : List Node) where
  -- what one source adds; a source that the graph does not have adds nothing
  unfoldable pub source_routes : ℕ → List LabelStackEntry
  unfolding routes_from
  source_routes src_id = elim (paths.all_pairs src_id) [
    | none ↦ []
    | some src_paths ↦
        routes_from heap m use_php (λ peer. get peer (or_nothing (get src_id ifaces))) src_paths
          src_id dsts
  ]

  -- The outer loop, over the sources.
  unfoldable pub build_lfib : List Node → Lfib → Lfib
  unfolding source_routes
  build_lfib [] lfib = lfib
  build_lfib (src ∷ srcs) lfib =
      build_lfib srcs (put src.id (entries_at (get src.id lfib) ++ source_routes src.id) lfib)

-- `_build_sr_gs_routes`, the new `sr_lfib`
unfoldable pub build_sr_gs_routes : Topology → Manager → Bool → Paths → Lfib
unfolding build_lfib
build_sr_gs_routes t m use_php paths =
    let nodes = values t.ground_stations ++ addressable_satellites t in
    build_lfib t.heap m use_php paths (iface_lookup t.heap nodes []) nodes nodes []
