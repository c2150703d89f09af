-- ===== src/Address/Binary.antt =====
-- Texts of binary digits (utils/ip_utils.py): `int(_, 2)` and the padded `b` format.
use satgonetem.Base.{
  ℕ, zero, suc, ◌+◌, ◌*◌, ◌-◌, ◌/◌, ◌%◌, ◌^◌, ◌<◌, ◌≡◌, refl, sym, ap, ◌∙◌, Bool, true, false, [],
  ◌∷◌, ◌++◌, ltb, nat_beq, arith, length, length-append, Bool-cases, inl, inr, times-power, low,
}
use satgonetem.Address.{Digits, digit_value, value_from, binary_fuel, zeros, padded}

-- The last `width` binary digits of a number.
unfoldable pub last_digits : ℕ → ℕ → Digits
last_digits zero n = []
last_digits (suc w) n = last_digits w (n / 2) ++ nat_beq (n % 2) 1 ∷ []

zeros_end : (w : ℕ) → zeros (suc w) ≡ zeros w ++ false ∷ []
zeros_end zero = refl
zeros_end (suc w) = ap (λ ds. false ∷ ds) (zeros_end w)

append_assoc : (xs ys zs : Digits) → (xs ++ ys) ++ zs ≡ xs ++ (ys ++ zs)
append_assoc [] ys zs = refl
append_assoc (x ∷ xs) ys zs = ap (λ l. x ∷ l) (append_assoc xs ys zs)

zeros-last_digits : (w : ℕ) → last_digits w 0 ≡ zeros w
unfolding last_digits
zeros-last_digits zero = refl
zeros-last_digits (suc w) = rw (zeros-last_digits w) (sym (zeros_end w))

abbrev pad : ℕ → Digits → Digits
pad w ds = zeros (w - length ds) ++ ds

pad_end : (w : ℕ) (ds : Digits) (d : Bool) → pad (suc w) (ds ++ d ∷ []) ≡ pad w ds ++ d ∷ []
pad_end w ds d =
    let more : suc w - length (ds ++ d ∷ []) ≡ w - length ds =
      omega (arith, length-append ds (d ∷ [])) in
    rw more (sym (append_assoc (zeros (w - length ds)) ds (d ∷ [])))

-- With enough fuel, the padded text is the last digits.
pad-binary_fuel :
    (f w n : ℕ) → n < f → n < 2 ^ suc w → pad (suc w) (binary_fuel f n) ≡ last_digits (suc w) n
unfolding binary_fuel last_digits
pad-binary_fuel zero w n fuel less = absurd (omega arith)
pad-binary_fuel (suc f) zero n fuel less = ground (arith, single)
  where
    single : ltb n 2 ≡ true → pad 1 (nat_beq n 1 ∷ []) ≡ last_digits 1 n
    single small = let digit : n % 2 ≡ n = ground arith in rw digit refl
pad-binary_fuel (suc f) (suc w) n fuel less = elim (Bool-cases (ltb n 2)) [
  | inl small ↦
      let none_left : n / 2 ≡ 0 = ground arith in
      let digit : n % 2 ≡ n = ground arith in
      let one_less : suc (suc w) - 1 ≡ suc w = omega arith in
      rw (small, one_less, none_left, digit)
        (ap (λ ds. ds ++ nat_beq n 1 ∷ []) (sym (zeros-last_digits (suc w))))
  | inr big ↦ rw big (
      pad_end (suc w) (binary_fuel f (n / 2)) (nat_beq (n % 2) 1)
      ∙ ap (λ ds. ds ++ nat_beq (n % 2) 1 ∷ [])
          (pad-binary_fuel f w (n / 2) (ground arith) (ground arith)))
]

pub padded-last_digits : (w n : ℕ) → n < 2 ^ suc w → padded (suc w) n ≡ last_digits (suc w) n
unfolding padded
padded-last_digits w n less = pad-binary_fuel (suc n) w n (omega arith) less

pub value_from-append :
    (acc : ℕ) (xs ys : Digits) → value_from acc (xs ++ ys) ≡ value_from (value_from acc xs) ys
unfolding value_from
value_from-append acc [] ys = refl
value_from-append acc (x ∷ xs) ys = value_from-append (acc * 2 + digit_value x) xs ys

-- The digits of a number are read back.
pub value_from-last_digits :
    (w acc n : ℕ) → value_from acc (last_digits w n) ≡ acc * 2 ^ w + low w n
unfolding value_from last_digits low
value_from-last_digits zero acc n = omega arith
value_from-last_digits (suc w) acc n =
    value_from-append acc (last_digits w (n / 2)) (nat_beq (n % 2) 1 ∷ [])
    ∙ ground (arith, value_from-last_digits w acc (n / 2), times-power acc w)
