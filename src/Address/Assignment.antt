-- ===== src/Address/Assignment.antt =====
-- `Interface.set_ipv4_address` (models/interface.py). An exception leaves what was already set.
use satgonetem.Base.{
  ℕ, Bool, true, false, nat_beq, if◌then◌else◌, Option, none, some, List, [], ◌∷◌, Text, codes,
  split, contains, ◌==◌, text_eq, list_eq, nat_eq, Result, ok, raise, attribute_error, value_error,
  ◌>>=◌,
}
use satgonetem.Emulator.{Interface, Heap, second_field}
use satgonetem.Address.{get_ipv4_address, int_or_raise, drop}

-- `self.set_ip(address)`
unfoldable pub set_ip : Text → ℕ → Heap → Heap
set_ip address i heap = λ j. if nat_beq j i then record (heap j) { ipv4 = address } else heap j

-- `w.split(".")[0]`, which is never out of range
unfoldable pub first_field : List Text → Text
first_field [] = []
first_field (w ∷ ws) = w

-- `local_name`
unfoldable pub local_name : Interface → Result Text
unfolding first_field
local_name i =
    if i.type == codes "lo"
    then second_field (split b'_' i.name)
    else ok (first_field (split b'.' i.name))

-- `node_type`
unfoldable pub node_type : Text → Result Text
node_type local =
    if contains (codes "Gnd") local
    then ok (codes "GroundStation")
    else if contains (codes "Sat") local
    then ok (codes "Satellite")
    else raise value_error

-- The address of the interface, and that of its peer where there is one to set.
unfoldable pub link_ips : Interface → Result (Text × Option Text)
unfolding local_name node_type
link_ips i = do
  local ← local_name i
  local_id ← int_or_raise (drop 3 local)
  type ← node_type local
  if i.type == codes "lo"
      then (get_ipv4_address local_id local_id type true >>= λ p. ok (p.0, none))
      else (do
        field ← second_field (split b'.' i.name)
        peer_id ← int_or_raise field
        p ← get_ipv4_address local_id peer_id type false
        ok (p.0, some p.1))

abbrev pub assign : Heap → ℕ → Result (Text × Option Text) → Heap × Result (Unit {0})
assign heap i (raise x) = (heap, raise x)
assign heap i (ok (own, none)) = (set_ip own i heap, ok tt)
assign heap i (ok (own, some other)) = elim (heap i).peer [
  | none ↦ (set_ip own i heap, raise attribute_error)
  | some p ↦ (set_ip other p (set_ip own i heap), ok tt)
]

abbrev pub is_set : Text → Bool
is_set [] = false
is_set (c ∷ s) = true

-- `Interface.set_ipv4_address`
unfoldable pub set_ipv4_address : Heap → ℕ → Heap × Result (Unit {0})
unfolding link_ips
set_ipv4_address heap i =
    if is_set (heap i).ipv4 then (heap, ok tt) else assign heap i (link_ips (heap i))

-- what comes after a call on the heap, unless the call raised
abbrev pub unless_raised :
    Heap × Result (Unit {0}) → (Heap → Heap × Result (Unit {0})) → Heap × Result (Unit {0})
unless_raised (heap, ok _) next = next heap
unless_raised (heap, raise x) next = (heap, raise x)

-- `InterfaceMgrMixin._set_ips_to_nodes`
unfoldable pub set_ips_to_nodes : Heap → List ℕ → Heap × Result (Unit {0})
set_ips_to_nodes heap [] = (heap, ok tt)
set_ips_to_nodes heap (i ∷ is) =
    unless_raised (set_ipv4_address heap i) (λ after. set_ips_to_nodes after is)
