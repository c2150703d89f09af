-- ===== src/Base/Bits.antt =====
-- Masks and shifts: `bit_and` and `bit_or` where one side is a run of ones or is shifted.
use Prim.Native.Nat.{
  ℕ, zero, suc, ◌+◌, ◌*◌, ◌/◌, ◌%◌, ◌^◌, ◌≤◌, ◌<◌, min, max, bit_and, bit_or, digits, bitwise,
  bit_and-bitwise, bit_or-bitwise,
}
use mathlib.Core.Path.{◌≡◌, refl, sym, ap, ◌∙◌}
use native.Mathlib.Nat.{div-div-eq-div-mul}
use mathlib.Core.Bool.{Bool, true, ◌&&◌}
use native.Mathlib.Omega.{arith}

-- A test that holds of every number below a bound, found by running it on each.
abbrev pub holds_below : (ℕ → Bool) → ℕ → Bool
holds_below test zero = true
holds_below test (suc bound) = holds_below test bound && test bound

pub holds_below-at :
    (test : ℕ → Bool) (bound n : ℕ) → holds_below test bound ≡ true → n < bound → test n ≡ true
holds_below-at test zero n all less = absurd (omega arith)
holds_below-at test (suc bound) n all less = ground (arith, holds_below-at test bound n)

module _ (z : ℕ → ℕ) (op : ℕ → ℕ → ℕ) where
  digits_count : (c d x y : ℕ) → x ≤ c → x ≤ d → digits z op c x y ≡ digits z op d x y
  digits_count zero zero x y p q = refl
  digits_count zero (suc d) zero y p q = refl
  digits_count zero (suc d) (suc x) y p q = absurd (omega arith)
  digits_count (suc c) zero zero y p q = refl
  digits_count (suc c) (suc d) zero y p q = refl
  digits_count (suc c) zero (suc x) y p q = absurd (omega arith)
  digits_count (suc c) (suc d) (suc x) y p q =
      omega (arith, digits_count c d (suc x / 2) (y / 2) (omega arith) (omega arith))

  bitwise_step :
      (x y : ℕ)
      → bitwise z op (suc x) y ≡ bitwise z op (suc x / 2) (y / 2) * 2 + op (suc x % 2) (y % 2)
  bitwise_step x y =
      omega (arith, digits_count x (suc x / 2) (suc x / 2) (y / 2) (omega arith) (omega arith))

and_halves : (x y : ℕ) → bit_and x y ≡ bit_and (x / 2) (y / 2) * 2 + min (x % 2) (y % 2)
and_halves zero y = omega (arith, bit_and-bitwise 0 y, bit_and-bitwise 0 (y / 2))
and_halves (suc x) y = omega (
  arith,
  bit_and-bitwise (suc x) y,
  bit_and-bitwise (suc x / 2) (y / 2),
  bitwise_step (λ _. 0) min x y,
)

or_halves : (x y : ℕ) → bit_or x y ≡ bit_or (x / 2) (y / 2) * 2 + max (x % 2) (y % 2)
or_halves zero y = omega (arith, bit_or-bitwise 0 y, bit_or-bitwise 0 (y / 2))
or_halves (suc x) y = omega (
  arith,
  bit_or-bitwise (suc x) y,
  bit_or-bitwise (suc x / 2) (y / 2),
  bitwise_step (λ b. b) max x y,
)

and-digit :
    (x y q r : ℕ) → y ≡ q * 2 + r → r < 2 → bit_and x y ≡ bit_and (x / 2) q * 2 + min (x % 2) r
and-digit x y q r e less =
    let half : y / 2 ≡ q = omega arith in
    let last : y % 2 ≡ r = omega arith in rw (← half, ← last) (and_halves x y)

or-digit : (x p r y : ℕ) → x ≡ p * 2 + r → r < 2 → bit_or x y ≡ bit_or p (y / 2) * 2 + max r (y % 2)
or-digit x p r y e less =
    let half : x / 2 ≡ p = omega arith in
    let last : x % 2 ≡ r = omega arith in rw (← half, ← last) (or_halves x y)

ones : ℕ → ℕ
ones zero = 0
ones (suc w) = ones w * 2 + 1

and-none : (x : ℕ) → bit_and x 0 ≡ 0
and-none x = below x x (omega arith)
  where
    below : (bound x : ℕ) → x ≤ bound → bit_and x 0 ≡ 0
    below bound zero less = bit_and-bitwise 0 0
    below zero (suc x) less = absurd (omega arith)
    below (suc bound) (suc x) less =
        omega (arith, and_halves (suc x) 0, below bound (suc x / 2) (omega arith))

or-none : (x : ℕ) → bit_or x 0 ≡ x
or-none x = below x x (omega arith)
  where
    below : (bound x : ℕ) → x ≤ bound → bit_or x 0 ≡ x
    below bound zero less = bit_or-bitwise 0 0
    below zero (suc x) less = absurd (omega arith)
    below (suc bound) (suc x) less =
        omega (arith, or_halves (suc x) 0, below bound (suc x / 2) (omega arith))

-- the lowest digits, one after the other
unfoldable pub low : ℕ → ℕ → ℕ
low zero x = 0
low (suc w) x = low w (x / 2) * 2 + x % 2

and-ones : (w x : ℕ) → bit_and x (ones w) ≡ low w x
unfolding ones low
and-ones zero x = and-none x
and-ones (suc w) x =
    omega (arith, and-digit x (ones (suc w)) (ones w) 1 refl (omega arith), and-ones w (x / 2))

pub low_small : (w x : ℕ) → x < 2 ^ w → low w x ≡ x
unfolding low
low_small zero x less = omega arith
low_small (suc w) x less = omega (arith, low_small w (x / 2) (omega arith))

pub bit_and-byte : (x : ℕ) → bit_and x 255 ≡ x % 256
unfolding ones low
bit_and-byte x = omega (arith, and-ones 8 x)

-- a mask of 32 ones, on a number of 32 digits
and-word : (x : ℕ) → x < 4294967296 → bit_and x 4294967295 ≡ x
unfolding ones
and-word x less =
    let small : low 32 x ≡ x = low_small 32 x less in omega (arith, and-ones 32 x, small)

times_twice : (q m : ℕ) → q * (m * 2) ≡ q * m * 2
times_twice q m = omega arith

pub times-power : (q k : ℕ) → q * 2 ^ suc k ≡ q * 2 ^ k * 2
times-power q k =
    let twice : 2 ^ suc k ≡ 2 ^ k * 2 = omega arith in ap (λ m. q * m) twice ∙ times_twice q (2 ^ k)

pub halve-power : (x k : ℕ) → x / 2 / 2 ^ k ≡ x / 2 ^ suc k
halve-power x k = div-div-eq-div-mul x 2 (2 ^ k) ∙ ap (λ d. x / d) (omega arith)

pub bit_and-mask : (k x : ℕ) → x < 4294967296 → bit_and x (4294967295 * 2 ^ k) ≡ x / 2 ^ k * 2 ^ k
bit_and-mask zero x less = omega (arith, and-word x less)
bit_and-mask (suc k) x less =
    let twice : 4294967295 * 2 ^ suc k ≡ 4294967295 * 2 ^ k * 2 + 0 = omega arith in
    let back : x / 2 / 2 ^ k * 2 ^ k * 2 ≡ x / 2 / 2 ^ k * 2 ^ suc k =
      sym (times-power (x / 2 / 2 ^ k) k) in
    omega (
      arith,
      ap (λ q. q * 2 ^ suc k) (halve-power x k),
      and-digit x _ _ 0 twice (omega arith),
      bit_and-mask k (x / 2) (omega arith),
      back,
    )

pub bit_or-shifted : (k x y : ℕ) → y < 2 ^ k → bit_or (x * 2 ^ k) y ≡ x * 2 ^ k + y
bit_or-shifted zero x y less =
    let zero_y : y ≡ 0 = omega arith in
    let same : x * 1 ≡ x = omega arith in rw (zero_y, same) (or-none x ∙ omega arith)
bit_or-shifted (suc k) x y less =
    let twice : x * 2 ^ suc k ≡ x * 2 ^ k * 2 + 0 = omega (arith, times-power x k) in
    omega
      (arith, or-digit _ _ 0 y twice (omega arith), bit_or-shifted k x (y / 2) (omega arith), twice)
