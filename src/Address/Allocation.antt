-- ===== src/Address/Allocation.antt =====
-- `IPUtils.get_ipv4_address`: the number behind the two addresses of a link.
use satgonetem.Base.{
  ℕ, ◌+◌, ◌*◌, ◌/◌, ◌%◌, ◌^◌, ◌<◌, ◌≡◌, refl, ap, ◌∙◌, Bool, true, false, not, ltb, [], ◌∷◌, ◌++◌,
  Text, codes, pos, ok, arith, if◌then◌else◌, low, ◌==◌, text_eq, list_eq, nat_eq, ◌>>=◌,
}
use satgonetem.Address.{
  digit_value, value_from, dotted, quaddot, base_ip, get_ipv4_address, is_valid_ipv4,
  link_addresses, thirteen_bits, owner_code,
}
use satgonetem.Address.Binary.{
  last_digits, padded-last_digits, value_from-append, value_from-last_digits,
}
use satgonetem.Address.Decoding.{is_valid_ipv4-dotted}

-- The dotted text of a 32-bit number.
unfoldable pub address_text : ℕ → Text
address_text n = dotted (n / 2 ^ 24) (n / 2 ^ 16 % 256) (n / 2 ^ 8 % 256) (n % 256)

-- The bits of an address: two for the kind of the owner, 13 for the node, one for a loopback, 13
-- for the peer, then 1, 0, and the side of the link.
unfoldable pub address_number : ℕ → ℕ → Bool → ℕ → Bool → ℕ
address_number owner node loopback peer last =
    owner * 2 ^ 30
    + node * 2 ^ 17
    + digit_value loopback * 2 ^ 16
    + peer * 2 ^ 3
    + 4
    + digit_value last

pub dotted-ext :
    {a b c d m n o p : ℕ} → a ≡ m → b ≡ n → c ≡ o → d ≡ p → dotted a b c d ≡ dotted m n o p
dotted-ext e f g h = rw (e, f, g, h) refl

-- The four parts of the text of digits, as numbers.
first_octet :
    (o p : Bool) (n : ℕ)
    → value_from 0 (o ∷ p ∷ last_digits 6 n) ≡ (digit_value o * 2 + digit_value p) * 64 + low 6 n
unfolding value_from
first_octet o p n = value_from-last_digits 6 _ n ∙ omega arith

pub second_octet :
    (n : ℕ) (d : Bool) → value_from 0 (last_digits 7 n ++ d ∷ []) ≡ low 7 n * 2 + digit_value d
unfolding value_from
second_octet n d =
    value_from-append 0 (last_digits 7 n) (d ∷ []) ∙ omega (arith, value_from-last_digits 7 0 n)

fourth_octet :
    (n : ℕ) (d : Bool)
    → value_from 0 (last_digits 5 n ++ true ∷ false ∷ d ∷ []) ≡ low 5 n * 8 + 4 + digit_value d
unfolding value_from
fourth_octet n d =
    value_from-append 0 (last_digits 5 n) (true ∷ false ∷ d ∷ [])
    ∙ omega (arith, value_from-last_digits 5 0 n)

pub digit_value-lt : (d : Bool) → digit_value d < 2
digit_value-lt d = ground arith

quaddot-base_ip :
    (o p : Bool) (n : ℕ) (loopback : Bool) (m : ℕ) (last : Bool)
    → n < 2 ^ 13
    → m < 2 ^ 13
    → quaddot (base_ip (o ∷ p ∷ []) n loopback m ++ last ∷ [])
      ≡ ok (address_text (address_number (digit_value o * 2 + digit_value p) n loopback m last))
unfolding quaddot address_text address_number last_digits value_from low
quaddot-base_ip o p n loopback m last n_less m_less =
    let small : (digit_value o < 2)
        × (digit_value p < 2)
        × (digit_value loopback < 2)
        × (digit_value last < 2) =
      (digit_value-lt o, digit_value-lt p, digit_value-lt loopback, digit_value-lt last) in
    rw (padded-last_digits 12 n n_less, padded-last_digits 12 m m_less)
      (ap ok (
        dotted-ext (first_octet o p (n / 2 / 2 / 2 / 2 / 2 / 2 / 2) ∙ omega (arith, small))
          (second_octet n loopback ∙ omega (arith, small))
          (value_from-last_digits 8 0 (m / 2 / 2 / 2 / 2 / 2) ∙ omega (arith, small))
          (fourth_octet m last ∙ omega (arith, small))))

-- The two-bit code of a kind of node.
unfoldable pub owner_number : Text → ℕ
owner_number type =
    if type == codes "Satellite" then 2 else if type == codes "GroundStation" then 1 else 3

pub data IsKind : Text → Type 0 where
  satellite_kind : IsKind (codes "Satellite")
  ground_station_kind : IsKind (codes "GroundStation")
  user_terminal_kind : IsKind (codes "UserTerminal")

is_valid_ipv4-address_text : (n : ℕ) → n < 2 ^ 32 → is_valid_ipv4 (address_text n) ≡ true
unfolding address_text
is_valid_ipv4-address_text n less =
    is_valid_ipv4-dotted _ _ _ _ (omega arith) (omega arith) (omega arith) (omega arith)

pub address_number-lt :
    (owner n : ℕ) (loopback : Bool) (m : ℕ) (last : Bool)
    → owner < 4
    → n < 2 ^ 13
    → m < 2 ^ 13
    → address_number owner n loopback m last < 2 ^ 32
unfolding address_number
address_number-lt owner n loopback m last o_less n_less m_less =
    omega (arith, digit_value-lt loopback, digit_value-lt last)

link_addresses_lem :
    (o p : Bool) (n : ℕ) (loopback : Bool) (m : ℕ)
    → n < 2 ^ 13
    → m < 2 ^ 13
    → link_addresses (o ∷ p ∷ []) n m loopback
      ≡ ok (
        address_text
            (address_number (digit_value o * 2 + digit_value p) n loopback m (not (ltb n m))),
        address_text (address_number (digit_value o * 2 + digit_value p) n loopback m (ltb n m)),
      )
unfolding link_addresses
link_addresses_lem o p n loopback m n_less m_less =
    let owner : digit_value o * 2 + digit_value p < 4 =
      ground (arith, digit_value-lt o, digit_value-lt p) in
    rw
      (
        quaddot-base_ip o p n loopback m (not (ltb n m)) n_less m_less,
        quaddot-base_ip o p n loopback m (ltb n m) n_less m_less,
        is_valid_ipv4-address_text _
            (address_number-lt _ n loopback m (not (ltb n m)) owner n_less m_less),
        is_valid_ipv4-address_text _
            (address_number-lt _ n loopback m (ltb n m) owner n_less m_less),
      )
      refl

thirteen_bits-pos : (n : ℕ) → n < 2 ^ 13 → thirteen_bits (pos n) ≡ ok n
thirteen_bits-pos n less = ground arith

-- For a satellite, a ground station or a user terminal and identifiers below 8192,
-- `get_ipv4_address` raises nothing and returns the dotted texts of two numbers: two bits for the
-- kind, 13 for the node, one for a loopback, 13 for the peer, then 1 and 0, and a last bit that is
-- 0 in the first address exactly if the node is below its peer, and the other way around in the
-- second.
pub get_ipv4_address_lem :
    (type : Text) (n m : ℕ) (loopback : Bool)
    → IsKind type
    → n < 2 ^ 13
    → m < 2 ^ 13
    → get_ipv4_address (pos n) (pos m) type loopback
      ≡ ok (
        address_text (address_number (owner_number type) n loopback m (not (ltb n m))),
        address_text (address_number (owner_number type) n loopback m (ltb n m)),
      )
unfolding get_ipv4_address owner_number
get_ipv4_address_lem type n m loopback kind n_less m_less =
    rw (thirteen_bits-pos n n_less, thirteen_bits-pos m m_less) (by_kind kind)
  where
    by_kind :
        {type : Text}
        → IsKind type
        → (owner_code type >>= λ owner. link_addresses owner n m loopback)
          ≡ ok (
            address_text (address_number (owner_number type) n loopback m (not (ltb n m))),
            address_text (address_number (owner_number type) n loopback m (ltb n m)),
          )
    by_kind satellite_kind = link_addresses_lem true false n loopback m n_less m_less
    by_kind ground_station_kind = link_addresses_lem false true n loopback m n_less m_less
    by_kind user_terminal_kind = link_addresses_lem true true n loopback m n_less m_less
