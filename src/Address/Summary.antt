-- ===== src/Address/Summary.antt =====
-- `summarize_ipv4_address` and `ipv4_to_binary` on the text of a 32-bit number.
use satgonetem.Base.{
  ℕ, ◌+◌, ◌-◌, ◌*◌, ◌/◌, ◌%◌, ◌^◌, ◌<◌, ◌≤◌, ◌≡◌, sym, ap, ◌∙◌, true, [], ◌∷◌, ◌++◌, leb, ok, arith,
  ◌>>=◌, bit_and, bit_and-mask, bit_and-byte, low_small,
}
use native.Mathlib.Nat.{div-mul-le_self}
use satgonetem.Address.{
  ip_int, dotted, octets, joined, summarize_ipv4_address, ipv4_to_binary, quaddot, padded,
  value_from, int_base_two,
}
use satgonetem.Address.Binary.{last_digits, padded-last_digits, value_from-last_digits}
use satgonetem.Address.Decoding.{octets-dotted, joined_lem}
use satgonetem.Address.Allocation.{address_text, dotted-ext}

octets-address_text :
    (n : ℕ)
    → n < 2 ^ 32
    → octets (address_text n) ≡ ok (n / 2 ^ 24 ∷ n / 2 ^ 16 % 256 ∷ n / 2 ^ 8 % 256 ∷ n % 256 ∷ [])
unfolding address_text
octets-address_text n less =
    octets-dotted _ _ _ _ (omega arith) (omega arith) (omega arith) (omega arith)

ip_int-address_text : (n : ℕ) → n < 2 ^ 32 → ip_int (address_text n) ≡ ok n
unfolding ip_int
ip_int-address_text n less =
    let total : n / 2 ^ 24 * 2 ^ 24 + n / 2 ^ 16 % 256 * 2 ^ 16 + n / 2 ^ 8 % 256 * 2 ^ 8 + n % 256
        ≡ n =
      omega arith in
    ap (λ r. r >>= joined) (octets-address_text n less)
    ∙ joined_lem (n / 2 ^ 24) _ _ _ (omega arith) (omega arith) (omega arith)
    ∙ ap ok total

-- Different numbers have different texts.
pub address_text-injective :
    (n m : ℕ) → n < 2 ^ 32 → m < 2 ^ 32 → address_text n ≡ address_text m → n ≡ m
address_text-injective n m n_less m_less e =
    let values : ok n ≡ ok m =
      sym (ip_int-address_text n n_less) ∙ ap ip_int e ∙ ip_int-address_text m m_less in
    cc

-- The network of a number, of the prefix length that is given.
unfoldable pub network : ℕ → ℕ → ℕ
network prefix n = n / 2 ^ (32 - prefix) * 2 ^ (32 - prefix)

network-le : (prefix n : ℕ) → network prefix n ≤ n
unfolding network
network-le prefix n = div-mul-le_self n (2 ^ (32 - prefix))

bytes :
    (n : ℕ)
    → n < 2 ^ 32
    → dotted
        (bit_and (n / 2 ^ 24) 255)
        (bit_and (n / 2 ^ 16) 255)
        (bit_and (n / 2 ^ 8) 255)
        (bit_and n 255)
      ≡ address_text n
unfolding address_text
bytes n less =
    dotted-ext (bit_and-byte (n / 2 ^ 24) ∙ omega arith) (bit_and-byte (n / 2 ^ 16))
      (bit_and-byte (n / 2 ^ 8)) (bit_and-byte n)

-- For a number below 2^32 and a prefix length of at most 32, the summary of its dotted text is the
-- dotted text of the number with its last 32 - prefix bits cleared.
pub summarize_ipv4_address_lem :
    (n prefix : ℕ)
    → n < 2 ^ 32
    → prefix ≤ 32
    → summarize_ipv4_address (address_text n) prefix ≡ ok (address_text (network prefix n))
unfolding summarize_ipv4_address network
summarize_ipv4_address_lem n prefix less allowed =
    let in_range : leb prefix 32 ≡ true = ground arith in
    let smaller : network prefix n < 2 ^ 32 = omega (arith, network-le prefix n, less) in
    rw (in_range, ip_int-address_text n less, bit_and-mask (32 - prefix) n less)
      (ap ok (bytes (network prefix n) smaller))

padded_byte : (n : ℕ) → n < 256 → padded 8 n ≡ last_digits 8 n
padded_byte n less = padded-last_digits 7 n less

byte_value : (n : ℕ) → n < 256 → value_from 0 (last_digits 8 n) ≡ n
byte_value n less = omega (arith, value_from-last_digits 8 0 n, low_small 8 n less)

quaddot-bytes :
    (a b c d : ℕ)
    → a < 256
    → b < 256
    → c < 256
    → d < 256
    → quaddot (last_digits 8 a ++ (last_digits 8 b ++ (last_digits 8 c ++ (last_digits 8 d ++ []))))
      ≡ ok (dotted a b c d)
unfolding quaddot last_digits int_base_two
quaddot-bytes a b c d a_less b_less c_less d_less = ap ok (
    dotted-ext (byte_value a a_less) (byte_value b b_less) (byte_value c c_less)
      (byte_value d d_less))

-- For a number below 2^32, `quaddot` gives the dotted text back from the binary digits that
-- `ipv4_to_binary` reads from it.
pub quaddot-ipv4_to_binary :
    (n : ℕ) → n < 2 ^ 32 → (ipv4_to_binary (address_text n) >>= quaddot) ≡ ok (address_text n)
unfolding ipv4_to_binary address_text
quaddot-ipv4_to_binary n less =
    rw
      (
        octets-address_text n less,
        padded_byte (n / 2 ^ 24) (omega arith),
        padded_byte (n / 2 ^ 16 % 256) (omega arith),
        padded_byte (n / 2 ^ 8 % 256) (omega arith),
        padded_byte (n % 256) (omega arith),
      )
      (quaddot-bytes _ _ _ _ (omega arith) (omega arith) (omega arith) (omega arith))
