-- ===== src/Address.antt =====
-- IPv4 addresses (utils/ip_utils.py). A Python text of the digits 0 and 1 is a list of Booleans.
-- The exceptions that `int` raises on a part of an address are caught by the callers as in the code.
pub mod Decoding
pub mod Binary
pub mod Allocation
pub mod Summary
pub mod Distinct
pub mod Networks
pub mod Assignment
pub mod Ends
use satgonetem.Base.{
  ℕ, zero, suc, ◌+◌, ◌*◌, ◌-◌, ◌/◌, ◌%◌, ◌^◌, Bool, true, false, ◌&&◌, ◌||◌, not, Option, none,
  some, List, [], ◌∷◌, ◌++◌, map, Text, codes, split, decimal, int_of_text, ℤ, pos, negsuc, ◌==◌,
  ltb, leb, nat_beq, if◌then◌else◌, Result, ok, raise, value_error, ◌>>=◌, ◌>>◌, require,
  map_result, bit_and, bit_or, text_eq, list_eq, nat_eq, length,
}

abbrev pub Digits : Type 0
Digits = List Bool

abbrev pub digit_value : Bool → ℕ
digit_value true = 1
digit_value false = 0

-- `int(digits, 2)`; the empty text is a ValueError
unfoldable pub value_from : ℕ → Digits → ℕ
value_from acc [] = acc
value_from acc (d ∷ ds) = value_from (acc * 2 + digit_value d) ds

abbrev pub int_base_two : Digits → Result ℕ
unfolding value_from
int_base_two [] = raise value_error
int_base_two (d ∷ ds) = ok (value_from 0 (d ∷ ds))

-- `f"{n:b}"`. The fuel n + 1 is enough, since each round halves n.
unfoldable pub binary_fuel : ℕ → ℕ → Digits
binary_fuel zero n = []
binary_fuel (suc f) n =
    let rest = binary_fuel f (n / 2) in
    if ltb n 2 then nat_beq n 1 ∷ [] else rest ++ nat_beq (n % 2) 1 ∷ []

abbrev pub zeros : ℕ → Digits
zeros zero = []
zeros (suc w) = false ∷ zeros w

-- `f"{n:0>{width}b}"`, and `f"{n:0{width}b}"` for n ≥ 0
unfoldable pub padded : ℕ → ℕ → Digits
unfolding binary_fuel
padded width n = let digits = binary_fuel (suc n) n in zeros (width - length digits) ++ digits

abbrev pub take {ℓ} : {A : Type ℓ} → ℕ → List A → List A
take zero xs = []
take (suc n) [] = []
take (suc n) (x ∷ xs) = x ∷ take n xs

abbrev pub drop {ℓ} : {A : Type ℓ} → ℕ → List A → List A
drop zero xs = xs
drop (suc n) [] = []
drop (suc n) (x ∷ xs) = drop n xs

-- `"{}.{}.{}.{}".format(...)`
abbrev pub dotted : ℕ → ℕ → ℕ → ℕ → Text
dotted a b c d = decimal a ++ b'.' ∷ (decimal b ++ b'.' ∷ (decimal c ++ b'.' ∷ decimal d))

-- `IPUtils.quaddot`
unfoldable pub quaddot : Digits → Result Text
quaddot binary = do
  a ← int_base_two (take 8 binary)
  b ← int_base_two (take 8 (drop 8 binary))
  c ← int_base_two (take 8 (drop 16 binary))
  d ← int_base_two (drop 24 binary)
  ok (dotted a b c d)

-- `part and 0 <= int(part) <= 255`, with the ValueError of `int` as false
abbrev pub valid_number : Option ℤ → Bool
valid_number none = false
valid_number (some (pos n)) = leb n 255
valid_number (some (negsuc n)) = false

abbrev pub valid_part : Text → Bool
valid_part [] = false
valid_part (c ∷ s) = valid_number (int_of_text (c ∷ s))

abbrev pub all_valid : List Text → Bool
all_valid [] = true
all_valid (p ∷ ps) = valid_part p && all_valid ps

-- `IPUtils.is_valid_ipv4`
unfoldable pub is_valid_ipv4 : Text → Bool
is_valid_ipv4 ip =
    let parts = split b'.' ip in if nat_beq (length parts) 4 then all_valid parts else false

-- `if not (0 <= node < 2**13): raise ValueError(...)`
abbrev pub thirteen_bits : ℤ → Result ℕ
thirteen_bits (pos n) = if ltb n (2 ^ 13) then ok n else raise value_error
thirteen_bits (negsuc n) = raise value_error

abbrev pub owner_code : Text → Result Digits
owner_code type =
    if type == codes "Satellite"
    then ok (true ∷ false ∷ [])
    else if type == codes "GroundStation"
    then ok (false ∷ true ∷ [])
    else if type == codes "UserTerminal"
    then ok (true ∷ true ∷ [])
    else raise value_error

-- `base_ip`
abbrev pub base_ip : Digits → ℕ → Bool → ℕ → Digits
base_ip owner node loopback peer =
    owner ++ (padded 13 node ++ (loopback ∷ (padded 13 peer ++ true ∷ false ∷ [])))

-- The two addresses of a link. The lower identifier takes the even one.
unfoldable pub link_addresses : Digits → ℕ → ℕ → Bool → Result (Text × Text)
link_addresses owner node peer loopback = do
  let base = base_ip owner node loopback peer
  first ← quaddot (base ++ not (ltb node peer) ∷ [])
  second ← quaddot (base ++ ltb node peer ∷ [])
  require (is_valid_ipv4 first && is_valid_ipv4 second) value_error >> ok (first, second)

-- `IPUtils.get_ipv4_address`
unfoldable pub get_ipv4_address : ℤ → ℤ → Text → Bool → Result (Text × Text)
unfolding link_addresses
get_ipv4_address node_id peer_id type loopback = do
  owner ← owner_code type
  local ← thirteen_bits node_id
  peer ← thirteen_bits peer_id
  link_addresses owner local peer loopback

-- `[int(p) for p in parts]`
abbrev pub int_or_raise : Text → Result ℤ
int_or_raise p = elim (int_of_text p) [ none ↦ raise value_error | some n ↦ ok n ]

abbrev pub octet : ℤ → Result ℕ
octet (pos n) = if leb n 255 then ok n else raise value_error
octet (negsuc n) = raise value_error

-- The part that `ipv4_to_binary` and `summarize_ipv4_address` share: four parts, each a number
-- from 0 to 255.
unfoldable pub octets : Text → Result (List ℕ)
octets ip = do
  let parts = split b'.' ip
  _ ← require (nat_beq (length parts) 4) value_error
  numbers ← map_result int_or_raise parts
  map_result octet numbers

abbrev pub four_binary : List ℕ → Digits
four_binary [] = []
four_binary (n ∷ ns) = padded 8 n ++ four_binary ns

-- `IPUtils.ipv4_to_binary`
unfoldable pub ipv4_to_binary : Text → Result Digits
unfolding octets
ipv4_to_binary ip = do ns ← octets ip; ok (four_binary ns)

-- `(octets[0] << 24) | (octets[1] << 16) | (octets[2] << 8) | octets[3]`; there are four
abbrev pub joined : List ℕ → Result ℕ
joined (a ∷ b ∷ c ∷ d ∷ []) = ok (bit_or (bit_or (bit_or (a * 2 ^ 24) (b * 2 ^ 16)) (c * 2 ^ 8)) d)
joined _ = raise value_error

-- `ip_int`
unfoldable pub ip_int : Text → Result ℕ
unfolding octets
ip_int ip = octets ip >>= joined

-- `IPUtils.summarize_ipv4_address`, for a prefix that is not negative
unfoldable pub summarize_ipv4_address : Text → ℕ → Result Text
unfolding ip_int
summarize_ipv4_address ip prefix = do
  _ ← require (leb prefix 32) value_error
  number ← ip_int ip
  let network = bit_and number (0xffff_ffff * 2 ^ (32 - prefix))
  ok (
      dotted (bit_and (network / 2 ^ 24) 255) (bit_and (network / 2 ^ 16) 255)
        (bit_and (network / 2 ^ 8) 255) (bit_and network 255))
