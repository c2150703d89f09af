-- ===== src/Tests/StaticRoutes.antt =====
-- The static routes of a satellite with one neighbour, and of a graph with three vertices.
use satgonetem.Base.{
  ℕ, mem, false, decimal, subst, zero, suc, ◌≡◌, refl, true, false, Option, none, some, List, [],
  ◌∷◌, Text, codes, Dict, get, ok, text_eq, nat_eq, list_eq, option_eq, arith,
}
use satgonetem.Emulator.{Heap, Interface, RoutingEntry, Node, satellite, get_iname, get_prefix}
use satgonetem.Static.Diff.{Key, Line, entry_key, emit_batch_commands, text_pair_eq, key_eq}
use satgonetem.Static.Diff.Kernel.{run}
use satgonetem.Static.Diff.Refines.{surviving}
use satgonetem.Static.Diff.Tables.{table_keys, Shows, emit_batch_commands-Shows}
use satgonetem.Static.Install.{Signature, Caches, Source, rebuild, install_source_routes}
use satgonetem.Static.Install.Cache.{IsFresh, outcome, rebuild-cache, install_source_routes-again}
use satgonetem.Static.Populate.{ShortestPaths, signature_of}
use satgonetem.Static.Daemon.{install_all, node_ids, equalize}
use satgonetem.Static.Daemon.Rounds.{IsCached, install_source_routes-Shows}
use satgonetem.Static.Daemon.Sources.{rows, EachInstalled, install_all-EachInstalled}
use satgonetem.Tests.Kernels.{Table, table_kernel, OnePerKey-single, AllLive-single, Shows-itself}

abbrev iface_named : Text → Text → Option ℕ → Interface
iface_named name ipv4 peer = record {
  ipv4 = ipv4;
  name = name;
  peer = peer;
  is_monitored = false;
  is_active = true;
  previously_active = true;
  type = codes "isl";
  delay = 0;
  mac_address = none;
}

-- the interface of Sat1 to Sat2, and its peer
abbrev two_ifaces : Heap
two_ifaces zero = iface_named (codes "Sat1.2") (codes "172.0.0.0") (some 1)
two_ifaces (suc n) = iface_named (codes "Sat2.1") (codes "172.0.0.1") (some 0)

abbrev entry_to : Text → RoutingEntry
entry_to destination = record {
  prefix = 15;
  destination = destination;
  interface = 0;
  gateway = codes "172.0.0.1";
  target_node = codes "Sat2";
  update = true;
  source_node = codes "Sat1";
  source = codes "10.2.0.0";
}

abbrev key_to : Text → Key
key_to destination = ((destination, codes "/15"), (codes "172.0.0.1", codes "eth2"))

abbrev old_address : Text
old_address = codes "10.6.0.0"

abbrev new_address : Text
new_address = codes "10.4.0.0"

abbrev eth2 : List Text
eth2 = codes "eth2" ∷ []

abbrev live_key : (destination : Text) → List Key
live_key destination = key_to destination ∷ []

keys_to :
    (destination : Text)
    → table_keys two_ifaces (entry_to destination ∷ []) ≡ ok (key_to destination ∷ [])
unfolding entry_key get_iname get_prefix decimal
keys_to destination = refl

abbrev shown : Table
shown p = get p (surviving eth2 (live_key old_address))

emit_batch_commands-Shows_example :
    (ls : List Line) × (emit_batch_commands two_ifaces false
        (entry_to old_address ∷ [])
        (entry_to new_address ∷ [])
        (some eth2)
      ≡ ok ls)
    × Shows
        (table_kernel eth2)
        (run (table_kernel eth2) shown ls)
        (live_key new_address)
        (λ p. none)
emit_batch_commands-Shows_example =
    emit_batch_commands-Shows two_ifaces (table_kernel eth2) (entry_to old_address ∷ [])
      (entry_to new_address ∷ []) (live_key old_address) (live_key new_address) (λ p. none) shown
      (keys_to old_address) (keys_to new_address) (OnePerKey-single (key_to old_address))
      (OnePerKey-single (key_to new_address)) (AllLive-single eth2 (key_to new_address) refl)
      (λ p h. refl) (Shows-itself eth2 (live_key old_address))

abbrev sat_with : ℕ → Text → List RoutingEntry → Node
sat_with id name table = record {
  kind = satellite;
  name = name;
  id = id;
  ipv4_routing_table = table;
  ipv4_previous_routing_table = [];
  tables_shared = false;
  interfaces = 0 ∷ [];
  loopback = 0;
  container = true;
  addressable = true;
}

abbrev sat1 : Node
sat1 = sat_with 1 (codes "Sat1") (entry_to old_address ∷ [])

abbrev sat2 : Node
sat2 = sat_with 2 (codes "Sat2") []

abbrev no_caches : Caches
no_caches = record { source_signatures = []; entry_cache = [] }

abbrev from_sat1 : Source
from_sat1 = record {
  src_id = 1;
  src_ifaces = some ((2, 0) ∷ []);
  src_summary = codes "10.2.0.0";
  src_name = codes "Sat1";
  summarized_ips = (1, codes "10.2.0.0") ∷ (2, new_address) ∷ [];
  prefix = 15;
}

abbrev via_sat2 : Signature
via_sat2 = some 2 ∷ []

abbrev filled : Caches
filled = record {
  source_signatures = (1, via_sat2) ∷ [];
  entry_cache = (1, (2, entry_to new_address) ∷ []) ∷ [];
}

abbrev sat1_after : Node
sat1_after = record (equalize sat1) {
  ipv4_routing_table = entry_to new_address ∷ [];
  tables_shared = false;
}

sat1_rebuilt :
    rebuild two_ifaces no_caches (equalize sat1) from_sat1 (sat2 ∷ []) via_sat2
    ≡ ok (filled, sat1_after)
unfolding rebuild equalize
sat1_rebuilt = refl

sat1_installed :
    install_source_routes two_ifaces no_caches
      (equalize sat1)
      from_sat1
      (sat2 ∷ [])
      (2 ∷ [])
      via_sat2
    ≡ ok (filled, sat1_after)
unfolding install_source_routes equalize
sat1_installed = refl

install_source_routes-Shows_example :
    IsCached filled 1 (2 ∷ []) sat1_after
    × (ls : List Line) × (emit_batch_commands two_ifaces sat1_after.tables_shared
          sat1_after.ipv4_previous_routing_table sat1_after.ipv4_routing_table
          (some eth2)
        ≡ ok ls)
    × Shows
        (table_kernel eth2)
        (run (table_kernel eth2) shown ls)
        (live_key new_address)
        (λ p. none)
install_source_routes-Shows_example =
    install_source_routes-Shows two_ifaces (table_kernel eth2) no_caches sat1 from_sat1 (sat2 ∷ [])
      via_sat2 filled sat1_after (live_key old_address) (live_key new_address) (λ p. none) shown
      (refl, tt) (λ es h. cc) (keys_to old_address) (OnePerKey-single (key_to old_address))
      (λ p h. refl) (Shows-itself eth2 (live_key old_address)) sat1_installed (keys_to new_address)
      (OnePerKey-single (key_to new_address)) (AllLive-single eth2 (key_to new_address) refl)

some_inj {ℓ} : {A : Type ℓ} {a b : A} → some a ≡ some b → a ≡ b
some_inj h = cc

row-IsFresh : IsFresh ((2, entry_to new_address) ∷ [])
row-IsFresh i e h = ground arith

rebuild-cache_example :
    outcome 1 (rebuild two_ifaces filled sat1 from_sat1 (sat2 ∷ []) via_sat2)
    ≡ outcome 1 (
        rebuild two_ifaces (record filled { entry_cache = [] }) sat1 from_sat1 (sat2 ∷ []) via_sat2)
rebuild-cache_example =
    rebuild-cache two_ifaces filled sat1 from_sat1 (sat2 ∷ []) via_sat2
      (λ d found. subst IsFresh (some_inj found) row-IsFresh)

install_source_routes-again_example :
    install_source_routes two_ifaces filled sat1_after from_sat1 (sat2 ∷ []) (2 ∷ []) via_sat2
    ≡ ok (
      filled,
      record sat1_after {
        ipv4_previous_routing_table = entry_to new_address ∷ [];
        tables_shared = true;
      },
    )
install_source_routes-again_example =
    install_source_routes-again two_ifaces no_caches (equalize sat1) from_sat1 (sat2 ∷ []) via_sat2
      filled sat1_after (refl, tt) sat1_rebuilt

-- the graph 1 - 2 - 3, with the paths from 1 and from 3
abbrev line_paths : ShortestPaths
line_paths (suc (suc (suc n))) = some ((1, 3 ∷ 2 ∷ 1 ∷ []) ∷ (2, 3 ∷ 2 ∷ []) ∷ (3, 3 ∷ []) ∷ [])
line_paths (suc zero) = some ((1, 1 ∷ []) ∷ (2, 1 ∷ 2 ∷ []) ∷ (3, 1 ∷ 2 ∷ 3 ∷ []) ∷ [])
line_paths (suc (suc zero)) = none
line_paths zero = none

abbrev line_hops : List (Dict ℕ ℕ)
line_hops = ((2, 1) ∷ (3, 2) ∷ []) ∷ ((1, 2) ∷ (2, 3) ∷ []) ∷ []

abbrev to_sat2 : List (Dict ℕ ℕ)
to_sat2 = ((1, 2) ∷ []) ∷ []

abbrev sat1_ifaces : Dict ℕ (Dict ℕ ℕ)
sat1_ifaces = (1, (2, 0) ∷ []) ∷ []

sources_installed :
    install_all two_ifaces
      (sat2 ∷ [])
      to_sat2
      from_sat1.summarized_ips
      sat1_ifaces
      no_caches
      (equalize sat1 ∷ [])
    ≡ (ok tt, filled, sat1_after ∷ [])
unfolding install_all equalize install_source_routes signature_of
sources_installed = refl

install_all-EachInstalled_example :
    EachInstalled two_ifaces
      (sat2 ∷ [])
      to_sat2
      from_sat1.summarized_ips
      sat1_ifaces
      no_caches
      filled
      (equalize sat1 ∷ [])
      (sat1_after ∷ [])
    × ((i : ℕ) → mem i (node_ids (equalize sat1 ∷ [])) ≡ false → rows filled i ≡ rows no_caches i)
install_all-EachInstalled_example =
    install_all-EachInstalled two_ifaces (sat2 ∷ []) to_sat2 from_sat1.summarized_ips sat1_ifaces
      no_caches filled (equalize sat1 ∷ []) (sat1_after ∷ []) (refl, tt) sources_installed
