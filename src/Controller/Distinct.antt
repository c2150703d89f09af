-- ===== src/Controller/Distinct.antt =====
-- The addresses on the plane of the controller (services/mixins/controller.py).
use satgonetem.Base.{
  ℕ, ◌+◌, ◌*◌, ◌/◌, ◌^◌, ◌≤◌, ◌<◌, ◌≡◌, ◌≢◌, ◌⊎◌, refl, sym, ap, ◌∙◌, Bool, true, false, Bool-cases,
  inl, inr, ◌∷◌, Text, codes, leb, leb→le, ℤ, pos, negsuc, ok, raise, value_error, nat_beq,
  nat_beq_iff, ok-injective, arith, low,
}
use satgonetem.Address.{quaddot, value_from, get_ipv4_address}
use satgonetem.Address.Binary.{last_digits, padded-last_digits, value_from-last_digits}
use satgonetem.Address.Allocation.{
  address_text, address_number, address_number-lt, owner_number, IsKind, satellite_kind,
  ground_station_kind, user_terminal_kind, dotted-ext, second_octet,
}
use satgonetem.Address.Summary.{address_text-injective}
use satgonetem.Address.Distinct.{side, Made, get_ipv4_address-Made, owner_number-lt}
use satgonetem.Controller.{build_controller_ip}

-- Five ones, 13 zeros, 13 bits for the node, and a one.
unfoldable pub controller_number : ℕ → ℕ
controller_number n = 248 * 2 ^ 24 + n * 2 + 1

third_octet : (n : ℕ) → value_from 0 (false ∷ false ∷ last_digits 6 n) ≡ low 6 n
unfolding value_from
third_octet n = value_from-last_digits 6 0 n ∙ omega arith

build_controller_ip-pos :
    (n : ℕ) → n ≤ 0x1FFF → build_controller_ip (pos n) ≡ ok (address_text (controller_number n))
unfolding build_controller_ip quaddot address_text controller_number last_digits value_from low
build_controller_ip-pos n small =
    let test : leb n 0x1FFF ≡ true = ground arith in
    rw (test, padded-last_digits 12 0 (omega arith), padded-last_digits 12 n (omega arith))
      (ap ok (
        dotted-ext (omega arith) (omega arith)
          (third_octet (n / 2 / 2 / 2 / 2 / 2 / 2 / 2) ∙ omega arith)
          (second_octet n true ∙ omega arith)))

-- What an address that was given tells about the node.
record Given (z : ℤ) (address : Text) : Type 0 where
  node : ℕ
  node_eq : z ≡ pos node
  node_le : node ≤ 0x1FFF
  address_eq : address ≡ address_text (controller_number node)

given : (z : ℤ) (a : Text) → build_controller_ip z ≡ ok a → Given z a
unfolding build_controller_ip
given (negsuc n) a e = absurd cc
given (pos n) a e = elim (Bool-cases (leb n 0x1FFF)) [
  | inl y ↦
      let small : n ≤ 0x1FFF = leb→le n 0x1FFF y in
      record {
        node = n;
        node_eq = refl;
        node_le = small;
        address_eq = ok-injective (sym e ∙ build_controller_ip-pos n small);
      }
  | inr y ↦ let refused : build_controller_ip (pos n) ≡ raise value_error = rw y refl in absurd cc
]

controller_number-lt : (n : ℕ) → n ≤ 0x1FFF → controller_number n < 2 ^ 32
unfolding controller_number
controller_number-lt n small = omega arith

-- The two bits of the kind are 3, which no node in use has.
apart :
    (o n m c : ℕ) (l d : Bool)
    → o < 3
    → n < 2 ^ 13
    → m < 2 ^ 13
    → address_number o n l m d ≢ controller_number c
unfolding address_number controller_number
apart o n m c l d o_less n_less m_less e = ground arith

owner_number-lt_three :
    {type : Text} → IsKind type → type ≢ codes "UserTerminal" → owner_number type < 3
unfolding owner_number
owner_number-lt_three satellite_kind h = omega arith
owner_number-lt_three ground_station_kind h = omega arith
owner_number-lt_three user_terminal_kind h = absurd (h refl)

nodes_apart : (n m : ℕ) → nat_beq n m ≡ false → controller_number n ≢ controller_number m
unfolding controller_number
nodes_apart n m h e = ground arith

-- Two addresses that `build_controller_ip` gave are different, unless they were made for the same
-- identifier; and such an address is none of the two that `get_ipv4_address` returned for a kind
-- other than a user terminal.
pub build_controller_ip-distinct :
    (z w node peer : ℤ) (type : Text) (loopback which : Bool) (a b : Text) (p : Text × Text)
    → build_controller_ip z ≡ ok a
    → build_controller_ip w ≡ ok b
    → get_ipv4_address node peer type loopback ≡ ok p
    → type ≢ codes "UserTerminal"
    → ((z ≡ w) ⊎ (a ≢ b)) × (side which p ≢ a)
build_controller_ip-distinct z w node peer type loopback which a b p found found' link used =
    let x : Given z a = given z a found in
    let y : Given w b = given w b found' in
    let m : Made node peer type loopback which (side which p) =
      get_ipv4_address-Made node peer type loopback which p link in
    (
      elim (Bool-cases (nat_beq x.node y.node)) [
        | inl e ↦ inl (x.node_eq ∙ ap pos ((nat_beq_iff x.node y.node).0 e) ∙ sym y.node_eq)
        | inr e ↦ inr (λ same.
            let numbers : controller_number x.node ≡ controller_number y.node =
              address_text-injective _ _ (controller_number-lt x.node x.node_le)
                (controller_number-lt y.node y.node_le) (sym x.address_eq ∙ same ∙ y.address_eq) in
            nodes_apart x.node y.node e numbers)
      ],
      λ same.
          apart (owner_number type) m.node m.peer x.node loopback _
            (owner_number-lt_three m.kind used) m.node_less m.peer_less
            (address_text-injective _ _
              (address_number-lt _ m.node loopback m.peer _ (owner_number-lt m.kind) m.node_less
                m.peer_less)
              (controller_number-lt x.node x.node_le) (sym m.address_eq ∙ same ∙ x.address_eq)),
    )
