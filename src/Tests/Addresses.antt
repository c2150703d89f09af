-- ===== src/Tests/Addresses.antt =====
-- Addresses at concrete inputs (utils/ip_utils.py, models/interface.py).
use satgonetem.Base.{
  ℕ, ◌≡◌, ◌↔◌, refl, true, false, not, ltb, none, some, [], ◌∷◌, Text, codes, pos, text_eq, list_eq,
  nat_eq, ok, ◌>>=◌, arith, decimal, split, int_of_text, nat_beq, if◌then◌else◌,
}
use satgonetem.Emulator.{Interface, Heap, satellite}
use satgonetem.Address.{
  get_ipv4_address, quaddot, ipv4_to_binary, summarize_ipv4_address, is_valid_ipv4, value_from,
  padded, binary_fuel, link_addresses,
}
use satgonetem.Address.Allocation.{
  address_text, address_number, owner_number, satellite_kind, get_ipv4_address_lem,
}
use satgonetem.Address.Summary.{network, summarize_ipv4_address_lem, quaddot-ipv4_to_binary}
use satgonetem.Address.Distinct.{get_ipv4_address-distinct, side}
use satgonetem.Address.Networks.{summarize_ipv4_address-get_ipv4_address}
use satgonetem.Address.Assignment.{set_ip, set_ips_to_nodes}
use satgonetem.Address.Ends.{interface_name, kind_name, set_ips_to_nodes-ends}

get_ipv4_address_lem_example :
    get_ipv4_address (pos 5) (pos 9) (codes "Satellite") false
    ≡ ok (
      address_text (address_number (owner_number (codes "Satellite")) 5 false 9 (not (ltb 5 9))),
      address_text (address_number (owner_number (codes "Satellite")) 5 false 9 (ltb 5 9)),
    )
get_ipv4_address_lem_example =
    get_ipv4_address_lem (codes "Satellite") 5 9 false satellite_kind (omega arith) (omega arith)

get_ipv4_address_runs :
    get_ipv4_address (pos 5) (pos 9) (codes "Satellite") false
    ≡ ok (codes "128.10.0.76", codes "128.10.0.77")
unfolding get_ipv4_address link_addresses quaddot value_from padded binary_fuel decimal
    is_valid_ipv4 split int_of_text
get_ipv4_address_runs = refl

abbrev link_pair : Text × Text
link_pair = (codes "128.10.0.76", codes "128.10.0.77")

get_ipv4_address-distinct_example :
    (pos 5 ≡ pos 5)
    × (pos 9 ≡ pos 9)
    × (codes "Satellite" ≡ codes "Satellite")
    × (false ≡ false)
    × (true ≡ true)
get_ipv4_address-distinct_example =
    get_ipv4_address-distinct (pos 5) (pos 9) (pos 5) (pos 9) (codes "Satellite")
      (codes "Satellite") false false true true link_pair link_pair get_ipv4_address_runs
      get_ipv4_address_runs refl

summarize_ipv4_address_lem_example :
    summarize_ipv4_address (address_text 2148139084) 15 ≡ ok (address_text (network 15 2148139084))
summarize_ipv4_address_lem_example =
    summarize_ipv4_address_lem 2148139084 15 (omega arith) (omega arith)

quaddot-ipv4_to_binary_example :
    (ipv4_to_binary (address_text 2148139084) >>= quaddot) ≡ ok (address_text 2148139084)
quaddot-ipv4_to_binary_example = quaddot-ipv4_to_binary 2148139084 (omega arith)

summarize_ipv4_address-get_ipv4_address_example :
    (summarize_ipv4_address (side true link_pair) 15
      ≡ summarize_ipv4_address (side false link_pair) 15)
    ↔ ((pos 5 ≡ pos 5) × (codes "Satellite" ≡ codes "Satellite"))
summarize_ipv4_address-get_ipv4_address_example =
    summarize_ipv4_address-get_ipv4_address (pos 5) (pos 9) (pos 5) (pos 9) (codes "Satellite")
      (codes "Satellite") false false true false link_pair link_pair get_ipv4_address_runs
      get_ipv4_address_runs

abbrev plain : Text → ℕ → Interface
plain name peer = record {
  ipv4 = [];
  name = name;
  peer = some peer;
  is_monitored = false;
  is_active = true;
  previously_active = true;
  type = codes "InterSatelliteLink";
  delay = 3;
  mac_address = none;
}

unfoldable two_ends : Heap
two_ends = λ i.
    if nat_beq i 0
    then plain (interface_name satellite 5 9) 1
    else plain (interface_name satellite 9 5) 0

set_ips_to_nodes-ends_example :
    (p : Text × Text) × (get_ipv4_address (pos 5) (pos 9) (kind_name satellite) false ≡ ok p)
    × (set_ips_to_nodes two_ends (0 ∷ 1 ∷ []) ≡ (set_ip p.1 1 (set_ip p.0 0 two_ends), ok tt))
unfolding two_ends
set_ips_to_nodes-ends_example =
    set_ips_to_nodes-ends two_ends 0 1 satellite 5 9 (omega arith) (omega arith) refl refl refl refl
