-- ===== src/Base/Decimals.antt =====
-- `int(str(n))`: the numeral of a number is read back.
use Prim.Native.Nat.{ℕ, zero, suc, ◌+◌, ◌-◌, ◌*◌, ◌/◌, ◌%◌, ◌<◌}
use mathlib.Core.Path.{◌≡◌, refl, sym, ap, subst, ◌∙◌}
use mathlib.Core.Logic.{inl, inr}
use mathlib.Core.Bool.{Bool, true, ◌&&◌}
use mathlib.Core.Option.{some}
use mathlib.Core.List.{[], ◌∷◌, ◌++◌}
use native.Mathlib.Omega.{arith}
use satgonetem.Base.Tests.{ltb, Bool-cases, ltb→lt}
use satgonetem.Base.Strings.{
  Text, decimal, decimal_fuel, int_of_text, int_digits, left_strip, right_strip, signed, pos,
  is_digit,
}

abbrev pub all_digits : Text → Bool
all_digits [] = true
all_digits (c ∷ s) = is_digit c && all_digits s

all_digits-append :
    (s t : Text) → all_digits s ≡ true → all_digits t ≡ true → all_digits (s ++ t) ≡ true
all_digits-append [] t h k = k
all_digits-append (c ∷ s) t h k = ground (arith, all_digits-append s t)

digit_char : (d : ℕ) → d < 10 → all_digits ((48 + d) ∷ []) ≡ true
digit_char d less = ground arith

all_digits-decimal_fuel : (f n : ℕ) → all_digits (decimal_fuel f n) ≡ true
unfolding decimal_fuel
all_digits-decimal_fuel zero n = refl
all_digits-decimal_fuel (suc f) n = elim (Bool-cases (ltb n 10)) [
  | inl small ↦ rw small (digit_char n (ltb→lt n 10 small))
  | inr big ↦ rw big (
      all_digits-append (decimal_fuel f (n / 10)) _ (all_digits-decimal_fuel f (n / 10))
        (digit_char (n % 10) (omega arith)))
]

pub all_digits-decimal : (n : ℕ) → all_digits (decimal n) ≡ true
unfolding decimal
all_digits-decimal n = all_digits-decimal_fuel (suc n) n

left_strip_digits : (s : Text) → all_digits s ≡ true → left_strip s ≡ s
unfolding left_strip
left_strip_digits [] h = refl
left_strip_digits (c ∷ s) h = ground arith

right_strip_digits : (s : Text) → all_digits s ≡ true → right_strip s ≡ s
unfolding right_strip
right_strip_digits [] h = refl
right_strip_digits (c ∷ []) h = ground arith
right_strip_digits (c ∷ d ∷ s) h =
    let tail : right_strip (d ∷ s) ≡ d ∷ s = right_strip_digits (d ∷ s) (ground arith) in
    rw tail refl

numeral : ℕ → Text → ℕ
numeral acc [] = acc
numeral acc (c ∷ s) = numeral (acc * 10 + (c - 48)) s

int_digits-numeral :
    (acc : ℕ) (s : Text) → all_digits s ≡ true → int_digits acc true s ≡ some (numeral acc s)
unfolding int_digits numeral
int_digits-numeral acc [] h = refl
int_digits-numeral acc (c ∷ s) h = ground (arith, int_digits-numeral (acc * 10 + (c - 48)) s)

numeral-append : (acc : ℕ) (s t : Text) → numeral acc (s ++ t) ≡ numeral (numeral acc s) t
unfolding numeral
numeral-append acc [] t = refl
numeral-append acc (c ∷ s) t = numeral-append (acc * 10 + (c - 48)) s t

numeral-decimal_fuel : (f n : ℕ) → n < f → numeral 0 (decimal_fuel f n) ≡ n
unfolding decimal_fuel numeral
numeral-decimal_fuel zero n less = absurd (omega arith)
numeral-decimal_fuel (suc f) n less = elim (Bool-cases (ltb n 10)) [
  | inl small ↦ rw small (omega arith)
  | inr big ↦ rw big (
      numeral-append 0 (decimal_fuel f (n / 10)) ((48 + n % 10) ∷ [])
      ∙ ground (arith, numeral-decimal_fuel f (n / 10)))
]

signed_digits :
    (c : ℕ) (s : Text) → all_digits (c ∷ s) ≡ true → signed (c ∷ s) ≡ some (pos (numeral 0 (c ∷ s)))
unfolding int_digits numeral
signed_digits c s h = ground (arith, int_digits-numeral (0 * 10 + (c - 48)) s)

decimal_fuel_head : (f n : ℕ) → n < f → (c : ℕ) × (s : Text) × (decimal_fuel f n ≡ c ∷ s)
unfolding decimal_fuel
decimal_fuel_head zero n less = absurd (omega arith)
decimal_fuel_head (suc f) n less = elim (Bool-cases (ltb n 10)) [
  | inl small ↦ rw small ((48 + n), [], refl)
  | inr big ↦
      let (c, s, e) = decimal_fuel_head f (n / 10) (ground arith) in
      rw (big, e) (c, s ++ (48 + n % 10) ∷ [], refl)
]

pub int_of_text-decimal : (n : ℕ) → int_of_text (decimal n) ≡ some (pos n)
unfolding int_of_text decimal
int_of_text-decimal n =
    let digits : all_digits (decimal_fuel (suc n) n) ≡ true = all_digits-decimal_fuel (suc n) n in
    let (c, s, e) = decimal_fuel_head (suc n) n (omega arith) in
    let value : numeral 0 (decimal_fuel (suc n) n) ≡ n =
      numeral-decimal_fuel (suc n) n (omega arith) in
    by_head c s e digits value
  where
    by_head :
        {t : Text} (c : ℕ) (s : Text)
        → t ≡ c ∷ s
        → all_digits t ≡ true
        → numeral 0 t ≡ n
        → signed (left_strip (right_strip t)) ≡ some (pos n)
    by_head {t = t} c s e digits value =
        let both : right_strip t ≡ t = right_strip_digits t digits in
        let left : left_strip t ≡ t = left_strip_digits t digits in
        ap (λ u. signed (left_strip u)) both
        ∙ ap (λ u. signed u) (left ∙ e)
        ∙ signed_digits c s (subst (λ u. all_digits u ≡ true) e digits)
        ∙ ap (λ m. some (pos m)) (ap (λ u. numeral 0 u) (sym e) ∙ value)

pub decimal-injective : (m n : ℕ) → decimal m ≡ decimal n → m ≡ n
decimal-injective m n e =
    let read : some (pos m) ≡ some (pos n) =
      sym (int_of_text-decimal m) ∙ ap int_of_text e ∙ int_of_text-decimal n in
    cc
