-- ===== src/Emulator.antt =====
-- The data that the components share (models/interface.py, models/routing_entry.py,
-- models/node.py). Objects that the code compares by identity or reaches by reference are
-- numbered: an interface reference is a number, and a heap gives the interface behind it.
use satgonetem.Base.{
  ℕ, Bool, true, ◌&&◌, Option, List, ◌∷◌, ◌++◌, Text, codes, split, decimal, ◌==◌, if◌then◌else◌,
  Result, ok, raise, index_error, nat_eq, text_eq,
}

-- `Interface`. `peer` is `none` until the attribute is set.
pub record Interface : Type 0 where
  pub ipv4 : Text
  pub name : Text
  pub peer : Option ℕ
  pub is_monitored : Bool
  pub is_active : Bool
  pub previously_active : Bool
  pub type : Text
  pub delay : ℕ
  pub mac_address : Option Text

abbrev pub Heap : Type 0
Heap = ℕ → Interface

abbrev pub second_field : List Text → Result Text
second_field (w ∷ v ∷ ws) = ok v
second_field _ = raise index_error

abbrev eth : Result Text → Result Text
eth (ok s) = ok (codes "eth" ++ s)
eth (raise x) = raise x

-- `Interface.get_iname`
unfoldable pub get_iname : Interface → Result Text
unfolding split
get_iname i =
    if i.type == codes "lo" then ok (codes "lo") else eth (second_field (split b'.' i.name))

-- `RoutingEntry`; `interface` is a reference.
pub record RoutingEntry : Type 0 where
  pub prefix : ℕ
  pub destination : Text
  pub interface : ℕ
  pub gateway : Text
  pub target_node : Text
  pub update : Bool
  pub source_node : Text
  pub source : Text

-- `RoutingEntry.from_validated`
abbrev pub from_validated : Text → ℕ → Text → ℕ → Text → Text → Text → RoutingEntry
from_validated destination interface gateway prefix target_node source_node source = record {
  prefix = prefix;
  destination = destination;
  interface = interface;
  gateway = gateway;
  target_node = target_node;
  update = true;
  source_node = source_node;
  source = source;
}

-- `RoutingEntry.get_prefix`
unfoldable pub get_prefix : RoutingEntry → Text
get_prefix e = codes "/" ++ decimal e.prefix

-- `RoutingEntry.__eq__`; interfaces are compared by `Interface.__eq__`, that is by name.
unfoldable pub entry_beq : Heap → RoutingEntry → RoutingEntry → Bool
entry_beq heap a b =
    a.destination == b.destination
    && (heap a.interface).name == (heap b.interface).name
    && a.gateway == b.gateway
    && a.prefix == b.prefix

-- `Satellite` and `GroundStation` are the subclasses of `Node` in use.
pub data NodeKind : Type 0 where
  satellite ground_station : NodeKind

-- `Node`. Its interfaces are references. The two routing tables are Python lists, and the diff asks
-- whether they are one object: `tables_shared` is `previous is current`.
pub record Node : Type 0 where
  pub kind : NodeKind
  pub name : Text
  pub id : ℕ
  pub ipv4_routing_table : List RoutingEntry
  pub ipv4_previous_routing_table : List RoutingEntry
  pub tables_shared : Bool
  pub interfaces : List ℕ
  pub loopback : ℕ
  pub container : Bool
  pub addressable : Bool
