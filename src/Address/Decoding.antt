-- ===== src/Address/Decoding.antt =====
-- Dotted texts of four octets (utils/ip_utils.py): what `split` and `int` read from them.
use satgonetem.Base.{
  ℕ, ◌+◌, ◌*◌, ◌^◌, ◌<◌, ◌≡◌, refl, Bool, true, false, ◌&&◌, not, Option, none, some, [], ◌∷◌, ◌++◌,
  Text, split, decimal, int_of_text, ℤ, pos, negsuc, nat_beq, nat_beq_iff, ok, arith, holds_below,
  holds_below-at, bit_or-shifted, bit_or, ap, ◌∙◌,
}
use satgonetem.Address.{dotted, octets, is_valid_ipv4, joined, int_or_raise, octet, valid_part}

abbrev is_number : ℕ → Option ℤ → Bool
is_number n none = false
is_number n (some (pos m)) = nat_beq m n
is_number n (some (negsuc m)) = false

is_number-eq : (n : ℕ) (o : Option ℤ) → is_number n o ≡ true → o ≡ some (pos n)
is_number-eq n none h = ground arith
is_number-eq n (some (pos m)) h = ground (arith, nat_beq_iff m n)
is_number-eq n (some (negsuc m)) h = ground arith

abbrev pub free_of : ℕ → Text → Bool
free_of sep [] = true
free_of sep (c ∷ s) = not (nat_beq c sep) && free_of sep s

is_empty : Text → Bool
is_empty [] = true
is_empty (c ∷ s) = false

reads_back : ℕ → Bool
reads_back n =
    is_number n (int_of_text (decimal n)) && free_of b'.' (decimal n) && not (is_empty (decimal n))

octets_read_back : holds_below reads_back 256 ≡ true
unfolding reads_back decimal int_of_text is_empty
octets_read_back = refl

int-decimal : (n : ℕ) → n < 256 → int_of_text (decimal n) ≡ some (pos n)
unfolding reads_back
int-decimal n less = ground (
  arith,
  holds_below-at reads_back 256 n octets_read_back less,
  is_number-eq n (int_of_text (decimal n)),
)

free_of-decimal : (n : ℕ) → n < 256 → free_of b'.' (decimal n) ≡ true
unfolding reads_back
free_of-decimal n less = ground (arith, holds_below-at reads_back 256 n octets_read_back less)

is_empty-decimal : (n : ℕ) → n < 256 → is_empty (decimal n) ≡ false
unfolding reads_back
is_empty-decimal n less = ground (arith, holds_below-at reads_back 256 n octets_read_back less)

-- `split` at the first separator
pub split-append :
    (sep : ℕ) (w s : Text) → free_of sep w ≡ true → split sep (w ++ sep ∷ s) ≡ w ∷ split sep s
unfolding split
split-append sep [] s free = ground (arith, nat_beq_iff sep sep)
split-append sep (c ∷ w) s free = ground (arith, split-append sep w s)

pub split-free_of : (sep : ℕ) (w : Text) → free_of sep w ≡ true → split sep w ≡ w ∷ []
unfolding split
split-free_of sep [] free = refl
split-free_of sep (c ∷ w) free = ground (arith, split-free_of sep w)

pub split-dotted :
    (a b c d : ℕ)
    → a < 256
    → b < 256
    → c < 256
    → d < 256
    → split b'.' (dotted a b c d) ≡ decimal a ∷ decimal b ∷ decimal c ∷ decimal d ∷ []
split-dotted a b c d a_less b_less c_less d_less =
    rw
      (
        split-append b'.' (decimal a) (decimal b ++ b'.' ∷ (decimal c ++ b'.' ∷ decimal d))
            (free_of-decimal a a_less),
        split-append b'.' (decimal b) (decimal c ++ b'.' ∷ decimal d) (free_of-decimal b b_less),
        split-append b'.' (decimal c) (decimal d) (free_of-decimal c c_less),
        split-free_of b'.' (decimal d) (free_of-decimal d d_less),
      )
      refl

valid_part-decimal : (n : ℕ) → n < 256 → valid_part (decimal n) ≡ true
unfolding is_empty
valid_part-decimal n less = by_parts (decimal n) (int-decimal n less) (is_empty-decimal n less)
  where
    by_parts : (w : Text) → int_of_text w ≡ some (pos n) → is_empty w ≡ false → valid_part w ≡ true
    by_parts [] e f = ground arith
    by_parts (x ∷ w) e f = rw e (ground arith)

pub is_valid_ipv4-dotted :
    (a b c d : ℕ) → a < 256 → b < 256 → c < 256 → d < 256 → is_valid_ipv4 (dotted a b c d) ≡ true
unfolding is_valid_ipv4
is_valid_ipv4-dotted a b c d a_less b_less c_less d_less =
    rw
      (
        split-dotted a b c d a_less b_less c_less d_less,
        valid_part-decimal a a_less,
        valid_part-decimal b b_less,
        valid_part-decimal c c_less,
        valid_part-decimal d d_less,
      )
      refl

octet_of : (n : ℕ) → n < 256 → (int_or_raise (decimal n) ≡ ok (pos n)) × (octet (pos n) ≡ ok n)
octet_of n less = (rw (int_or_raise, int-decimal n less) refl, ground arith)

pub octets-dotted :
    (a b c d : ℕ)
    → a < 256
    → b < 256
    → c < 256
    → d < 256
    → octets (dotted a b c d) ≡ ok (a ∷ b ∷ c ∷ d ∷ [])
unfolding octets
octets-dotted a b c d a_less b_less c_less d_less =
    rw
      (
        split-dotted a b c d a_less b_less c_less d_less,
        (octet_of a a_less).0,
        (octet_of b b_less).0,
        (octet_of c c_less).0,
        (octet_of d d_less).0,
        (octet_of a a_less).1,
        (octet_of b b_less).1,
        (octet_of c c_less).1,
        (octet_of d d_less).1,
      )
      refl

pub joined_lem :
    (a b c d : ℕ)
    → b < 256
    → c < 256
    → d < 256
    → joined (a ∷ b ∷ c ∷ d ∷ []) ≡ ok (a * 2 ^ 24 + b * 2 ^ 16 + c * 2 ^ 8 + d)
joined_lem a b c d b_less c_less d_less =
    let high : a * 2 ^ 24 + b * 2 ^ 16 ≡ (a * 256 + b) * 2 ^ 16 = omega arith in
    let middle : (a * 256 + b) * 2 ^ 16 + c * 2 ^ 8 ≡ (a * 65536 + b * 256 + c) * 2 ^ 8 =
      omega arith in
    let total : (a * 65536 + b * 256 + c) * 2 ^ 8 + d ≡ a * 2 ^ 24 + b * 2 ^ 16 + c * 2 ^ 8 + d =
      omega arith in
    ap ok (
      ap (λ x. bit_or (bit_or x (c * 2 ^ 8)) d)
        (bit_or-shifted 24 a (b * 2 ^ 16) (omega arith) ∙ high)
      ∙ ap (λ x. bit_or x d) (bit_or-shifted 16 (a * 256 + b) (c * 2 ^ 8) (omega arith) ∙ middle)
      ∙ bit_or-shifted 8 (a * 65536 + b * 256 + c) d (omega arith)
      ∙ total)
