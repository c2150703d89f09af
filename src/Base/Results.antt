-- ===== src/Base/Results.antt =====
-- Python exceptions as values. The constructors are the exception classes that the code raises.
use mathlib.Core.Path.{◌≡◌, refl}
use mathlib.Core.Logic.{◌⊎◌, inl, inr}
use mathlib.Core.Bool.{Bool, true, false}
use mathlib.Core.Option.{Option, none, some}
use mathlib.Core.List.{List, [], ◌∷◌}

pub data Exception : Type 0 where
  value_error runtime_error key_error index_error attribute_error type_error no_path : Exception
  zero_division_error : Exception

pub data Result {ℓ} (A : Type ℓ) : Type ℓ where
  ok : A → Result A
  raise : Exception → Result A

module _ {ℓ κ} {A : Type ℓ} {B : Type κ} where
  infixl 5 ◌>>=◌
  -- what comes after a call, unless the call raised
  abbrev pub ◌>>=◌ : (m : Result A) (f : A → Result B) → Result B
  ok a >>= f = f a
  raise x >>= f = raise x

module _ {ℓ} {B : Type ℓ} where
  infixl 5 ◌>>◌
  abbrev pub ◌>>◌ : (m : Result (Unit {0})) (after : Result B) → Result B
  m >> after = m >>= λ _. after

-- `if not test: raise x`
abbrev pub require : Bool → Exception → Result (Unit {0})
require true x = ok tt
require false x = raise x

-- the value of `d[k]`, or the value that `None` turns into an exception
abbrev pub or_raise {ℓ} : {A : Type ℓ} → Option A → Exception → Result A
or_raise none x = raise x
or_raise (some a) x = ok a

module _ {ℓ κ} {A : Type ℓ} {B : Type κ} where
  -- a list comprehension whose element expression may raise
  abbrev pub map_result : (A → Result B) → List A → Result (List B)
  map_result f [] = ok []
  map_result f (x ∷ xs) = do y ← f x; ys ← map_result f xs; ok (y ∷ ys)

  -- A call that did not raise, and what came after it.
  pub >>=-eq-ok :
      (call : Result A) (next : A → Result B) {y : B}
      → (call >>= next) ≡ ok y
      → (x : A) × (call ≡ ok x) × (next x ≡ ok y)
  >>=-eq-ok (raise e) next done = cc
  >>=-eq-ok (ok x) next done = (x, refl, done)

  pub >>=-ext : (m : Result A) (f g : A → Result B) → ((a : A) → f a ≡ g a) → (m >>= f) ≡ (m >>= g)
  >>=-ext (ok a) f g h = h a
  >>=-ext (raise x) f g h = refl

pub Result-cases {ℓ} :
    {A : Type ℓ} (m : Result A) → ((a : A) × (m ≡ ok a)) ⊎ ((x : Exception) × (m ≡ raise x))
Result-cases (ok a) = inl (a, refl)
Result-cases (raise x) = inr (x, refl)

pub ok-injective {ℓ} : {A : Type ℓ} {a b : A} → ok a ≡ ok b → a ≡ b
ok-injective e = cc

pub some-injective {ℓ} : {A : Type ℓ} {a b : A} → some a ≡ some b → a ≡ b
some-injective e = cc
