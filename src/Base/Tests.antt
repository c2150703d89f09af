-- ===== src/Base/Tests.antt =====
-- Boolean tests, the conditional, and equality as an interface: Python's `==` at the types in use.
use Prim.Native.Nat.{ℕ, ◌≤◌, ◌<◌, compare, Ordering}
use mathlib.Core.Path.{◌≡◌, refl}
use mathlib.Core.Logic.{◌↔◌, ◌⊎◌, inl, inr, ◌≢◌}
use mathlib.Core.Bool.{Bool, true, false, ◌&&◌}
use mathlib.Core.Option.{Option, none, some}
use mathlib.Core.List.{List, [], ◌∷◌}
use native.Mathlib.Omega.{arith}

abbrev pub ltb : ℕ → ℕ → Bool
ltb a b = elim (compare a b) [ Ordering.lt ↦ true | _ ↦ false ]

abbrev pub leb : ℕ → ℕ → Bool
leb a b = elim (compare a b) [ Ordering.gt ↦ false | _ ↦ true ]

abbrev pub nat_beq : ℕ → ℕ → Bool
nat_beq a b = elim (compare a b) [ Ordering.eq ↦ true | _ ↦ false ]

infix 1 if◌then◌else◌
abbrev pub if◌then◌else◌ {ℓ} : {A : Type ℓ} → Bool → A → A → A
if true then x else y = x
if false then x else y = y

abbrev pub max : ℕ → ℕ → ℕ
max a b = if ltb b a then a else b

pub Bool-cases : (b : Bool) → (b ≡ true) ⊎ (b ≡ false)
Bool-cases true = inl refl
Bool-cases false = inr refl

pub Option-cases {ℓ} : {A : Type ℓ} (o : Option A) → (o ≡ none) ⊎ ((a : A) × (o ≡ some a))
Option-cases none = inl refl
Option-cases (some a) = inr (a, refl)

abbrev pub or_else {ℓ} : {A : Type ℓ} → Option A → Option A → Option A
or_else none b = b
or_else (some a) b = some a

pub ltb→lt : (a b : ℕ) → ltb a b ≡ true → a < b
ltb→lt a b h = ground arith

pub leb→le : (a b : ℕ) → leb a b ≡ true → a ≤ b
leb→le a b h = ground arith

pub nat_beq_iff : (a b : ℕ) → (nat_beq a b ≡ true) ↔ (a ≡ b)
nat_beq_iff a b = ground arith

-- Equality of values, as the program tests it.
pub record Eq {ℓ} (A : Type ℓ) : Type ℓ where
  pub beq : (x y : A) → Bool
  pub beq_iff : (x y : A) → (beq x y ≡ true) ↔ (x ≡ y)

infix 50 ◌==◌
abbrev pub ◌==◌ {ℓ} : {A : Type ℓ} ⦃e : Eq A⦄ → A → A → Bool
◌==◌ ⦃e⦄ = e.beq

module _ {ℓ} {A : Type ℓ} ⦃e : Eq A⦄ where
  pub ==_iff : (a b : A) → ((a == b) ≡ true) ↔ (a ≡ b)
  ==_iff a b = e.beq_iff a b

  pub ==_refl : (a : A) → (a == a) ≡ true
  ==_refl a = (e.beq_iff a a).1 refl

  pub ==_ne : (a b : A) → a ≢ b → (a == b) ≡ false
  ==_ne a b h = elim (Bool-cases (a == b)) [ inl y ↦ absurd (h ((e.beq_iff a b).0 y)) | inr n ↦ n ]

instance abbrev pub nat_eq : Eq ℕ
nat_eq = record { beq = nat_beq; beq_iff = nat_beq_iff }

module _ {ℓ} {A : Type ℓ} where
  abbrev pub list_beq : (A → A → Bool) → List A → List A → Bool
  list_beq f [] [] = true
  list_beq f [] (y ∷ ys) = false
  list_beq f (x ∷ xs) [] = false
  list_beq f (x ∷ xs) (y ∷ ys) = f x y && list_beq f xs ys

  pub list_beq_iff : (e : Eq A) (xs ys : List A) → (list_beq e.beq xs ys ≡ true) ↔ (xs ≡ ys)
  list_beq_iff e [] [] = ground arith
  list_beq_iff e [] (y ∷ ys) = ground arith
  list_beq_iff e (x ∷ xs) [] = ground arith
  list_beq_iff e (x ∷ xs) (y ∷ ys) = ground (arith, e.beq_iff x y, list_beq_iff e xs ys)

  instance abbrev pub list_eq : ⦃e : Eq A⦄ → Eq (List A)
  list_eq ⦃e⦄ = record { beq = list_beq e.beq; beq_iff = list_beq_iff e }

module _ {ℓ κ} {A : Type ℓ} {B : Type κ} where
  abbrev pub pair_beq : (A → A → Bool) → (B → B → Bool) → A × B → A × B → Bool
  pair_beq f g (a, b) (c, d) = f a c && g b d

  pub pair_beq_iff :
      (e : Eq A) (k : Eq B) (x y : A × B) → (pair_beq e.beq k.beq x y ≡ true) ↔ (x ≡ y)
  pair_beq_iff e k (a, b) (c, d) = ground (arith, e.beq_iff a c, k.beq_iff b d)

  instance abbrev pub pair_eq : ⦃e : Eq A⦄ ⦃k : Eq B⦄ → Eq (A × B)
  pair_eq ⦃e⦄ ⦃k⦄ = record { beq = pair_beq e.beq k.beq; beq_iff = pair_beq_iff e k }

module _ {ℓ} {A : Type ℓ} where
  abbrev pub option_beq : (A → A → Bool) → Option A → Option A → Bool
  option_beq f none none = true
  option_beq f none (some b) = false
  option_beq f (some a) none = false
  option_beq f (some a) (some b) = f a b

  pub option_beq_iff : (e : Eq A) (x y : Option A) → (option_beq e.beq x y ≡ true) ↔ (x ≡ y)
  option_beq_iff e none none = ground arith
  option_beq_iff e none (some b) = ground arith
  option_beq_iff e (some a) none = ground arith
  option_beq_iff e (some a) (some b) = ground (arith, e.beq_iff a b)

  instance abbrev pub option_eq : ⦃e : Eq A⦄ → Eq (Option A)
  option_eq ⦃e⦄ = record { beq = option_beq e.beq; beq_iff = option_beq_iff e }
