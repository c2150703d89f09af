-- ===== src/SegmentRouting/Entries.antt =====
-- The entries of models/mpls_entry.py and the commands that they print; the configuration.
use satgonetem.Base.{
  ℕ, Bool, List, [], ◌∷◌, ◌++◌, Text, codes, decimal, Result, ok, raise, ◌>>=◌, value_error,
  if◌then◌else◌, ltb, leb,
}
use satgonetem.Emulator.{Heap, get_iname}

-- `SRNodeSIDEntry`
pub record NodeSidEntry : Type 0 where
  pub node_sid : ℕ
  pub node_name : Text

-- `SRForwardEntry`
pub record ForwardEntry : Type 0 where
  pub target_sid : ℕ
  pub next_hop : Text
  pub interface : ℕ
  pub target_name : Text

-- `SRLabelStackEntry`
pub record LabelStackEntry : Type 0 where
  pub destination : Text
  pub label_stack : List ℕ
  pub next_hop : Text
  pub interface : ℕ
  pub fec_prefix : ℕ

-- `SRNodeSIDEntry.to_iproute2_command`
unfoldable pub node_sid_command : NodeSidEntry → Text
node_sid_command e = codes "ip -f mpls route replace " ++ decimal e.node_sid ++ codes " dev lo"

-- `SRForwardEntry.to_iproute2_command`
unfoldable pub forward_command : Heap → ForwardEntry → Result Text
forward_command heap e = do
  iface_name ← get_iname (heap e.interface)
  ok (
      codes "ip -f mpls route replace "
      ++ decimal e.target_sid
      ++ codes " via inet "
      ++ e.next_hop
      ++ codes " dev "
      ++ iface_name)

-- `"/".join(str(l) for l in self.label_stack)`
unfoldable pub labels_str : List ℕ → Text
labels_str [] = []
labels_str (l ∷ []) = decimal l
labels_str (l ∷ k ∷ ls) = decimal l ++ codes "/" ++ labels_str (k ∷ ls)

abbrev encap : List ℕ → Text
encap [] = []
encap (l ∷ ls) = codes " encap mpls " ++ labels_str (l ∷ ls)

-- `SRLabelStackEntry.to_iproute2_command`
unfoldable pub label_stack_command : Heap → LabelStackEntry → Result Text
label_stack_command heap e = do
  iface_name ← get_iname (heap e.interface)
  ok (
      codes "ip route replace "
      ++ e.destination
      ++ codes "/"
      ++ decimal e.fec_prefix
      ++ encap e.label_stack
      ++ codes " via "
      ++ e.next_hop
      ++ codes " dev "
      ++ iface_name)

-- `MPLSConfig`
pub record MplsConfig : Type 0 where
  pub enabled : Bool
  pub label_range_start : ℕ
  pub label_range_end : ℕ
  pub use_ldp : Bool
  pub use_php : Bool
  pub ttl : ℕ
  pub use_sr : Bool
  pub sr_node_sid_base : ℕ

-- `MPLSConfig.__post_init__`
unfoldable pub post_init : MplsConfig → Result MplsConfig
post_init c =
    let first = if ltb c.label_range_start 16 then 16 else c.label_range_start in
    let last = if ltb 1048575 c.label_range_end then 1048575 else c.label_range_end in
    if leb last first
    then raise value_error
    else ok (record c { label_range_start = first; label_range_end = last })
