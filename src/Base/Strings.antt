-- ===== src/Base/Strings.antt =====
-- Python's `str` as a list of code points, decimal numerals, `int`, and `split`.
use Prim.Native.Nat.{ℕ, zero, suc, ◌+◌, ◌-◌, ◌*◌, ◌/◌, ◌%◌}
use Prim.Native.Char.{code}
use Prim.Native.String.{String}
use mathlib.Core.Path.{◌≡◌, refl}
use mathlib.Core.Bool.{Bool, true, false, ◌&&◌, ◌||◌}
use mathlib.Core.Option.{Option, none, some}
use mathlib.Core.List.{List, [], ◌∷◌, ◌++◌}
use satgonetem.Base.Tests.{ltb, leb, nat_beq, if◌then◌else◌, Eq, nat_eq, list_eq}

abbrev pub Text : Type 0
Text = List ℕ

instance abbrev pub text_eq : Eq Text
text_eq = list_eq ⦃e = nat_eq⦄

abbrev pub codes : String → Text
codes String.[] = []
codes (String.◌∷◌ c s) = code c ∷ codes s

-- `s.split(sep)` for a separator of one character
unfoldable pub split : ℕ → Text → List Text
split sep [] = [] ∷ []
split sep (c ∷ s) =
    let rest = split sep s in
    if nat_beq c sep then [] ∷ rest else elim rest [ [] ↦ (c ∷ []) ∷ [] | w ∷ ws ↦ (c ∷ w) ∷ ws ]

-- `sub in s`
abbrev pub is_prefix : Text → Text → Bool
is_prefix [] s = true
is_prefix (p ∷ ps) [] = false
is_prefix (p ∷ ps) (c ∷ s) = nat_beq p c && is_prefix ps s

unfoldable pub contains : Text → Text → Bool
contains sub [] = is_prefix sub []
contains sub (c ∷ s) = is_prefix sub (c ∷ s) || contains sub s

-- `str(n)`, for n ≥ 0. The fuel n + 1 is enough, since each round divides n by ten.
unfoldable pub decimal_fuel : ℕ → ℕ → Text
decimal_fuel zero n = []
decimal_fuel (suc f) n =
    let rest = decimal_fuel f (n / 10) in
    if ltb n 10 then (48 + n) ∷ [] else rest ++ (48 + n % 10) ∷ []

unfoldable pub decimal : ℕ → Text
unfolding decimal_fuel
decimal n = decimal_fuel (suc n) n

-- The values of Python's `int`; `negsuc n` is -(n + 1).
pub data ℤ : Type 0 where
  pos : ℕ → ℤ
  negsuc : ℕ → ℤ

abbrev negate : ℕ → ℤ
negate zero = pos 0
negate (suc n) = negsuc n

abbrev is_space : ℕ → Bool
is_space c = leb 9 c && leb c 13 || leb 28 c && leb c 32

abbrev pub is_digit : ℕ → Bool
is_digit c = leb 48 c && leb c 57

unfoldable pub left_strip : Text → Text
left_strip [] = []
left_strip (c ∷ s) = let rest = left_strip s in if is_space c then rest else c ∷ s

unfoldable pub right_strip : Text → Text
right_strip [] = []
right_strip (c ∷ s) = elim (right_strip s) [
  | [] ↦ (if is_space c then [] else c ∷ [])
  | d ∷ r ↦ c ∷ d ∷ r
]

-- Digits with single underscores between them; `after` says that a digit was just read.
unfoldable pub int_digits : ℕ → Bool → Text → Option ℕ
int_digits acc after [] = if after then some acc else none
int_digits acc after (c ∷ s) =
    let more = int_digits (acc * 10 + (c - 48)) true s in
    let skipped = int_digits acc false s in
    if is_digit c then more else if nat_beq c b'_' && after then skipped else none

abbrev pub signed : Text → Option ℤ
unfolding int_digits
signed [] = none
signed (c ∷ s) =
    if nat_beq c b'-'
    then elim (int_digits 0 false s) [ none ↦ none | some n ↦ some (negate n) ]
    else if nat_beq c b'+'
    then elim (int_digits 0 false s) [ none ↦ none | some n ↦ some (pos n) ]
    else elim (int_digits 0 false (c ∷ s)) [ none ↦ none | some n ↦ some (pos n) ]

-- `int(s)` on ASCII text; `none` is its ValueError
unfoldable pub int_of_text : Text → Option ℤ
unfolding left_strip right_strip signed int_digits
int_of_text s = signed (left_strip (right_strip s))

int_of_text_runs :
    (int_of_text (codes " 1_0 ") ≡ some (pos 10)) × (int_of_text (codes "-5") ≡ some (negsuc 4))
unfolding int_of_text
int_of_text_runs = (refl, refl)

decimal_runs : decimal 16003 ≡ codes "16003"
unfolding decimal
decimal_runs = refl

split_runs : split b'.' (codes "Sat3.5") ≡ codes "Sat3" ∷ codes "5" ∷ []
unfolding split
split_runs = refl
