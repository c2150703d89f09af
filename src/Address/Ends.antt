-- ===== src/Address/Ends.antt =====
-- The two ends of a link (models/interface.py): the addresses that `set_ipv4_address` leaves.
use satgonetem.Base.{
  ℕ, ◌^◌, ◌<◌, ◌≡◌, refl, ap, ◌∙◌, true, false, nat_beq_iff, some, [], ◌∷◌, ◌++◌, Text, codes,
  split, contains, decimal, int_of_text-decimal, all_digits, all_digits-decimal, pos, ◌==◌, text_eq,
  list_eq, nat_eq, ok, ◌>>=◌, arith,
}
use satgonetem.Emulator.{Interface, Heap, NodeKind, satellite, ground_station}
use satgonetem.Address.{get_ipv4_address, int_or_raise, drop, dotted}
use satgonetem.Address.Decoding.{free_of, split-append, split-free_of}
use satgonetem.Address.Allocation.{
  address_text, get_ipv4_address_lem, IsKind, satellite_kind, ground_station_kind,
}
use satgonetem.Address.Assignment.{
  set_ip, link_ips, local_name, node_type, first_field, assign, is_set, set_ipv4_address,
  set_ips_to_nodes, unless_raised,
}

abbrev pub kind_name : NodeKind → Text
kind_name satellite = codes "Satellite"
kind_name ground_station = codes "GroundStation"

abbrev pub name_prefix : NodeKind → Text
name_prefix satellite = codes "Sat"
name_prefix ground_station = codes "Gnd"

kind_name-IsKind : (k : NodeKind) → IsKind (kind_name k)
kind_name-IsKind satellite = satellite_kind
kind_name-IsKind ground_station = ground_station_kind

-- The name that `_build_interfaces_from_link` gives to the interface of a node to a peer.
abbrev pub interface_name : NodeKind → ℕ → ℕ → Text
interface_name k n m = (name_prefix k ++ decimal n) ++ b'.' ∷ decimal m

digits-free_of : (s : Text) → all_digits s ≡ true → free_of b'.' s ≡ true
digits-free_of [] h = refl
digits-free_of (c ∷ s) h = ground (arith, digits-free_of s)

name-free_of : (k : NodeKind) (n : ℕ) → free_of b'.' (name_prefix k ++ decimal n) ≡ true
name-free_of satellite n = rw (digits-free_of (decimal n) (all_digits-decimal n)) refl
name-free_of ground_station n = rw (digits-free_of (decimal n) (all_digits-decimal n)) refl

no_ground : (s : Text) → all_digits s ≡ true → contains (codes "Gnd") s ≡ false
unfolding contains
no_ground [] h = refl
no_ground (c ∷ s) h = ground (arith, no_ground s)

node_type_lem : (k : NodeKind) (n : ℕ) → node_type (name_prefix k ++ decimal n) ≡ ok (kind_name k)
unfolding node_type contains
node_type_lem satellite n = rw (no_ground (decimal n) (all_digits-decimal n)) refl
node_type_lem ground_station n = refl

split-interface_name :
    (k : NodeKind) (n m : ℕ)
    → split b'.' (interface_name k n m) ≡ (name_prefix k ++ decimal n) ∷ decimal m ∷ []
split-interface_name k n m =
    split-append b'.' (name_prefix k ++ decimal n) (decimal m) (name-free_of k n)
    ∙ ap (λ ws. (name_prefix k ++ decimal n) ∷ ws)
        (split-free_of b'.' (decimal m) (digits-free_of (decimal m) (all_digits-decimal m)))

drop-name : (k : NodeKind) (n : ℕ) → drop 3 (name_prefix k ++ decimal n) ≡ decimal n
drop-name satellite n = refl
drop-name ground_station n = refl

int_or_raise-decimal : (n : ℕ) → int_or_raise (decimal n) ≡ ok (pos n)
int_or_raise-decimal n = rw (int_or_raise, int_of_text-decimal n) refl

link_ips_lem :
    (i : Interface) (k : NodeKind) (n m : ℕ)
    → i.name ≡ interface_name k n m
    → (i.type == codes "lo") ≡ false
    → link_ips i
      ≡ (get_ipv4_address (pos n) (pos m) (kind_name k) false >>= λ p. ok (p.0, some p.1))
unfolding link_ips local_name first_field
link_ips_lem i k n m named not_lo =
    rw
      (
        not_lo,
        named,
        split-interface_name k n m,
        drop-name k n,
        int_or_raise-decimal n,
        int_or_raise-decimal m,
        node_type_lem k n,
      )
      refl

is_set-dotted : (a b c d : ℕ) → is_set (dotted a b c d) ≡ true
is_set-dotted a b c d = after (decimal a) _
  where
    after : (s t : Text) → is_set (s ++ b'.' ∷ t) ≡ true
    after [] t = refl
    after (x ∷ s) t = refl

is_set-address_text : (n : ℕ) → is_set (address_text n) ≡ true
unfolding address_text
is_set-address_text n = is_set-dotted _ _ _ _

set_both :
    (heap : Heap) (i j : ℕ) (own other : Text)
    → (heap i).ipv4 ≡ []
    → (heap i).peer ≡ some j
    → link_ips (heap i) ≡ ok (own, some other)
    → set_ipv4_address heap i ≡ (set_ip other j (set_ip own i heap), ok tt)
unfolding set_ipv4_address
set_both heap i j own other unset peered ips = rw (is_set, unset, ips, assign, peered) refl

set_already :
    (heap : Heap) (i : ℕ) → is_set (heap i).ipv4 ≡ true → set_ipv4_address heap i ≡ (heap, ok tt)
unfolding set_ipv4_address
set_already heap i full = rw full refl

set_ip_self : (address : Text) (i : ℕ) (heap : Heap) → (set_ip address i heap i).ipv4 ≡ address
unfolding set_ip
set_ip_self address i heap = ground (arith, nat_beq_iff i i)

-- The first call sets both ends, and the second finds its address set.
both_set :
    (heap : Heap) (i j : ℕ) (own other : Text)
    → (heap i).ipv4 ≡ []
    → (heap i).peer ≡ some j
    → is_set other ≡ true
    → link_ips (heap i) ≡ ok (own, some other)
    → set_ips_to_nodes heap (i ∷ j ∷ []) ≡ (set_ip other j (set_ip own i heap), ok tt)
unfolding set_ips_to_nodes
both_set heap i j own other unset peered full ips =
    let after : Heap = set_ip other j (set_ip own i heap) in
    let found : is_set (after j).ipv4 ≡ true =
      ap is_set (set_ip_self other j (set_ip own i heap)) ∙ full in
    ap (λ r. unless_raised r (λ h. set_ips_to_nodes h (j ∷ [])))
      (set_both heap i j own other unset peered ips)
    ∙ ap (λ r. unless_raised r (λ h. (h, ok tt))) (set_already after j found)

-- An interface is named for a satellite or a ground station and a peer, with identifiers below
-- 8192; it is no loopback, has no address, and has a peer interface. Setting the addresses of the
-- two interfaces, one after the other, ends without an exception, gives the first address of
-- `get_ipv4_address` for its node to the interface and the second to its peer, and changes nothing
-- else.
pub set_ips_to_nodes-ends :
    (heap : Heap) (i j : ℕ) (k : NodeKind) (n m : ℕ)
    → n < 2 ^ 13
    → m < 2 ^ 13
    → (heap i).name ≡ interface_name k n m
    → ((heap i).type == codes "lo") ≡ false
    → (heap i).ipv4 ≡ []
    → (heap i).peer ≡ some j
    → (p : Text × Text) × (get_ipv4_address (pos n) (pos m) (kind_name k) false ≡ ok p)
      × (set_ips_to_nodes heap (i ∷ j ∷ []) ≡ (set_ip p.1 j (set_ip p.0 i heap), ok tt))
set_ips_to_nodes-ends heap i j k n m n_less m_less named not_lo unset peered =
    let made : get_ipv4_address (pos n) (pos m) (kind_name k) false ≡ ok _ =
      get_ipv4_address_lem (kind_name k) n m false (kind_name-IsKind k) n_less m_less in
    (
      _,
      made,
      both_set heap i j _ _ unset peered (is_set-address_text _)
          (link_ips_lem (heap i) k n m named not_lo ∙ rw made refl),
    )
