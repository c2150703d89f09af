-- ===== src/SegmentRouting/Manager.antt =====
-- `SegmentRoutingManager` of routing/srmpls_daemon.py: labels of nodes, custom paths, label stacks.
-- An operation that raises leaves the manager as it was.
pub mod Labels
pub mod Stacks
pub mod Paths
use satgonetem.Base.{
  ℕ, ◌+◌, Bool, true, false, not, ◌&&◌, Option, none, some, List, [], ◌∷◌, Text, Dict, get, put,
  pop, values, length, Eq, nat_eq, pair_eq, Result, ok, raise, require, ◌>>=◌, ◌>>◌, or_raise,
  runtime_error, value_error, if◌then◌else◌, ltb, leb, ◌==◌,
}

-- `NodeSID`
pub record NodeSid : Type 0 where
  pub node_id : ℕ
  pub label : ℕ
  pub node_name : Text

abbrev pub mpls_label_min : ℕ
mpls_label_min = 16

abbrev pub mpls_label_max : ℕ
mpls_label_max = 1048575

abbrev pub Pair : Type 0
Pair = ℕ × ℕ

-- `SegmentRoutingManager`
pub record Manager : Type 0 where
  pub node_sid_base : ℕ
  pub adj_sid_base : ℕ
  pub node_sids : Dict ℕ NodeSid
  pub reverse_sid_map : Dict ℕ ℕ
  pub custom_paths : Dict Pair (List ℕ)
  pub label_stack_cache : Dict Pair (List ℕ)

-- `SegmentRoutingManager.__init__`
unfoldable pub new_manager : ℕ → ℕ → Manager
new_manager node_sid_base adj_sid_base = record {
  node_sid_base = if ltb node_sid_base mpls_label_min then mpls_label_min else node_sid_base;
  adj_sid_base = adj_sid_base;
  node_sids = [];
  reverse_sid_map = [];
  custom_paths = [];
  label_stack_cache = [];
}

abbrev pub new_sid : Manager → ℕ → Text → NodeSid × Manager
new_sid m node_id node_name =
    let label = m.node_sid_base + node_id in
    let sid : NodeSid = record { node_id = node_id; label = label; node_name = node_name } in
    (
      sid,
      record m {
        node_sids = put node_id sid m.node_sids;
        reverse_sid_map = put label node_id m.reverse_sid_map;
      },
    )

-- `allocate_node_sid`
unfoldable pub allocate_node_sid : Manager → ℕ → Text → Result (NodeSid × Manager)
allocate_node_sid m node_id node_name = elim (get node_id m.node_sids) [
  | some sid ↦ ok (sid, m)
  | none ↦
      if leb (m.node_sid_base + node_id) mpls_label_max
      then ok (new_sid m node_id node_name)
      else raise runtime_error
]

-- `get_node_sid`
unfoldable pub get_node_sid : Manager → ℕ → Option ℕ
get_node_sid m node_id = elim (get node_id m.node_sids) [ none ↦ none | some sid ↦ some sid.label ]

-- `get_node_for_sid`
unfoldable pub get_node_for_sid : Manager → ℕ → Option ℕ
get_node_for_sid m label = get label m.reverse_sid_map

-- `path[0] == a` and `path[-1] == b`
abbrev pub starts_with : ℕ → List ℕ → Bool
starts_with a [] = false
starts_with a (x ∷ path) = x == a

abbrev pub ends_with : ℕ → List ℕ → Bool
ends_with b [] = false
ends_with b (x ∷ []) = x == b
ends_with b (x ∷ y ∷ path) = ends_with b (y ∷ path)

-- `set_custom_path`
unfoldable pub set_custom_path : Manager → ℕ → ℕ → List ℕ → Result Manager
set_custom_path m source_id dest_id path = do
  require (leb 2 (length path)) value_error
  require (starts_with source_id path) value_error
  require (ends_with dest_id path) value_error
  ok (record m {
    custom_paths = put (source_id, dest_id) path m.custom_paths;
    label_stack_cache = pop (source_id, dest_id) m.label_stack_cache;
  })

-- `get_custom_path`
unfoldable pub get_custom_path : Manager → ℕ → ℕ → Option (List ℕ)
get_custom_path m source_id dest_id = get (source_id, dest_id) m.custom_paths

abbrev pub is_some {ℓ} : {A : Type ℓ} → Option A → Bool
is_some none = false
is_some (some a) = true

-- `clear_custom_path`
unfoldable pub clear_custom_path : Manager → ℕ → ℕ → Bool × Manager
clear_custom_path m source_id dest_id = (
  is_some (get (source_id, dest_id) m.custom_paths),
  record m {
    custom_paths = pop (source_id, dest_id) m.custom_paths;
    label_stack_cache = pop (source_id, dest_id) m.label_stack_cache;
  },
)

abbrev pub but_last : List ℕ → List ℕ
but_last [] = []
but_last (x ∷ []) = []
but_last (x ∷ y ∷ path) = x ∷ but_last (y ∷ path)

-- `segment_nodes`: `path[1:-1]` with PHP, `path[1:len(path)]` without; no label for a shorter path
abbrev pub segment_nodes : Bool → List ℕ → List ℕ
segment_nodes use_php [] = []
segment_nodes use_php (x ∷ path) = if use_php then but_last path else path

unfoldable pub labels_of : Manager → List ℕ → Result (List ℕ)
labels_of m [] = ok []
labels_of m (node_id ∷ path) = do
  sid ← or_raise (get node_id m.node_sids) value_error
  labels ← labels_of m path
  ok (sid.label ∷ labels)

-- `get_label_stack_for_path`
unfoldable pub get_label_stack_for_path : Manager → List ℕ → Bool → Result (List ℕ)
unfolding labels_of
get_label_stack_for_path m path use_php =
    if ltb (length path) 2 then ok [] else labels_of m (segment_nodes use_php path)

abbrev or_default : Option (List ℕ) → Option (List ℕ) → List ℕ
or_default (some (x ∷ path)) default_path = x ∷ path
or_default custom none = []
or_default custom (some path) = path

abbrev remember : Manager → Pair → List ℕ → List ℕ → (List ℕ × List ℕ) × Manager
remember m key path labels =
    ((path, labels), record m { label_stack_cache = put key labels m.label_stack_cache })

-- `get_sr_route_for_destination`
unfoldable pub get_sr_route_for_destination :
    Manager → ℕ → ℕ → Option (List ℕ) → Bool → Result ((List ℕ × List ℕ) × Manager)
unfolding get_label_stack_for_path
get_sr_route_for_destination m source_id dest_id default_path use_php =
    let key : Pair = (source_id, dest_id) in
    let path = or_default (get key m.custom_paths) default_path in
    if ltb (length path) 2 then ok (([], []), m) else elim (get key m.custom_paths) [
      | some custom ↦ do labels ← get_label_stack_for_path m path use_php; ok ((path, labels), m)
      | none ↦ elim (get key m.label_stack_cache) [
        | some labels ↦ ok ((path, labels), m)
        | none ↦ do
          labels ← get_label_stack_for_path m path use_php
          ok (remember m key path labels)
      ]
    ]

-- `get_all_node_sids`
abbrev pub get_all_node_sids : Manager → List NodeSid
get_all_node_sids m = values m.node_sids

-- `get_statistics`
pub record Statistics : Type 0 where
  pub node_sid_base : ℕ
  pub node_sids_allocated : ℕ
  pub custom_paths : ℕ
  pub cached_stacks : ℕ

abbrev pub get_statistics : Manager → Statistics
get_statistics m = record {
  node_sid_base = m.node_sid_base;
  node_sids_allocated = length m.node_sids;
  custom_paths = length m.custom_paths;
  cached_stacks = length m.label_stack_cache;
}

-- `clear_cache`
abbrev pub clear_cache : Manager → Manager
clear_cache m = record m { label_stack_cache = [] }

-- `reset`
abbrev pub reset : Manager → Manager
reset m = record m {
  node_sids = [];
  reverse_sid_map = [];
  custom_paths = [];
  label_stack_cache = [];
}
