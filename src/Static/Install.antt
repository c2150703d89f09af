-- ===== src/Static/Install.antt =====
-- The route build of one source node (routing/static_daemon.py, `_install_source_routes`) with the
-- caches of `StaticRoutingDaemon`.
pub mod Cache
use satgonetem.Base.{
  ℕ, Bool, true, false, ◌&&◌, Option, none, some, List, [], ◌∷◌, ◌++◌, Text, Dict, get, put, Result,
  ok, raise, ◌>>=◌, or_raise, attribute_error, key_error, if◌then◌else◌, ◌==◌, nat_eq, text_eq,
  list_eq, option_eq,
}
use satgonetem.Emulator.{Heap, Interface, Node, RoutingEntry, from_validated}

-- One next hop, or `None`, for each destination.
abbrev pub Signature : Type 0
Signature = List (Option ℕ)

-- The attributes of `StaticRoutingDaemon` that the route build keeps.
pub record Caches : Type 0 where
  pub source_signatures : Dict ℕ Signature
  pub entry_cache : Dict ℕ (Dict ℕ RoutingEntry)

-- What all routes of one source share: `src_ifaces`, `src_summary`, `src_name`, `prefix`, and
-- `summarized_ips`.
pub record Source : Type 0 where
  pub src_id : ℕ
  pub src_ifaces : Option (Dict ℕ ℕ)
  pub src_summary : Text
  pub src_name : Text
  pub summarized_ips : Dict ℕ Text
  pub prefix : ℕ

-- The test of the loop body, which looks for a field that changed.
abbrev pub unchanged : RoutingEntry → RoutingEntry → Bool
unchanged e fresh =
    e.destination == fresh.destination
    && e.gateway == fresh.gateway
    && e.interface == fresh.interface
    && e.target_node == fresh.target_node
    && e.source_node == fresh.source_node
    && e.source == fresh.source
    && e.prefix == fresh.prefix

abbrev pub reuse_or : Option RoutingEntry → RoutingEntry → RoutingEntry
reuse_or none fresh = fresh
reuse_or (some e) fresh = if unchanged e fresh then e else fresh

-- `src_ifaces.get(int(next_hop))`, then `interface.peer.ipv4`
unfoldable pub outgoing : Heap → Source → ℕ → Result (ℕ × Text)
outgoing heap s next_hop = do
  ifaces ← or_raise s.src_ifaces attribute_error
  interface ← or_raise (get next_hop ifaces) attribute_error
  peer ← or_raise (heap interface).peer attribute_error
  ok (interface, (heap peer).ipv4)

-- One round of the loop, for a destination that has a next hop.
unfoldable pub route_entry : Heap → Source → Dict ℕ RoutingEntry → Node → ℕ → Result RoutingEntry
unfolding outgoing
route_entry heap s cached dst next_hop = do
  (interface, gateway) ← outgoing heap s next_hop
  destination ← or_raise (get dst.id s.summarized_ips) key_error
  ok (
      reuse_or (get dst.id cached)
        (from_validated destination interface gateway s.prefix dst.name s.src_name s.src_summary))

-- `for dst, next_hop in zip(dst_array, signature)`
unfoldable pub build_from :
    Heap
    → Source
    → Dict ℕ RoutingEntry
    → List Node
    → Signature
    → Dict ℕ RoutingEntry
    → List RoutingEntry
    → Result (Dict ℕ RoutingEntry × List RoutingEntry)
unfolding route_entry
build_from heap s cached [] signature entries table = ok (entries, table)
build_from heap s cached (dst ∷ dsts) [] entries table = ok (entries, table)
build_from heap s cached (dst ∷ dsts) (none ∷ hops) entries table =
    build_from heap s cached dsts hops entries table
build_from heap s cached (dst ∷ dsts) (some next_hop ∷ hops) entries table = do
  entry ← route_entry heap s cached dst next_hop
  build_from heap s cached dsts hops (put dst.id entry entries) (table ++ entry ∷ [])

-- `[old_entries[dst_id] for dst_id in dst_ids if dst_id in old_entries]`
unfoldable pub cached_table : Dict ℕ RoutingEntry → List ℕ → List RoutingEntry
cached_table old [] = []
cached_table old (i ∷ ids) =
    let rest = cached_table old ids in elim (get i old) [ none ↦ rest | some e ↦ e ∷ rest ]

abbrev pub or_empty : Option (Dict ℕ RoutingEntry) → Dict ℕ RoutingEntry
or_empty none = []
or_empty (some d) = d

abbrev pub store :
    Caches → Node → ℕ → Signature → Dict ℕ RoutingEntry × List RoutingEntry → Caches × Node
store c node src_id signature (entries, table) = (
  record {
    source_signatures = put src_id signature c.source_signatures;
    entry_cache = put src_id entries c.entry_cache;
  },
  record node { ipv4_routing_table = table; tables_shared = false },
)

-- The rest of the method, where the shortcut is not taken.
unfoldable pub rebuild :
    Heap → Caches → Node → Source → List Node → Signature → Result (Caches × Node)
unfolding build_from
rebuild heap c node s dst_array signature = do
  built ← build_from heap s (or_empty (get s.src_id c.entry_cache)) dst_array signature [] []
  ok (store c node s.src_id signature built)

abbrev pub reuse : Caches → Node → Dict ℕ RoutingEntry → List ℕ → Caches × Node
reuse c node old dst_ids =
    let table = cached_table old dst_ids in
    (
      c,
      record node {
        ipv4_routing_table = table;
        ipv4_previous_routing_table = table;
        tables_shared = true;
      },
    )

-- `_install_source_routes`
unfoldable pub install_source_routes :
    Heap → Caches → Node → Source → List Node → List ℕ → Signature → Result (Caches × Node)
unfolding rebuild cached_table
install_source_routes heap c node s dst_array dst_ids signature =
    let rest = rebuild heap c node s dst_array signature in
    elim (get s.src_id c.entry_cache) [
      | none ↦ rest
      | some old ↦
          if some signature == get s.src_id c.source_signatures
          then ok (reuse c node old dst_ids)
          else rest
    ]
