-- ===== src/Base/Members.antt =====
-- Filters, and membership in them; association lists read as finite functions.
use mathlib.Core.Path.{◌≡◌, refl, sym, ◌∙◌, ap}
use mathlib.Core.Logic.{◌≢◌, inl, inr}
use mathlib.Core.Bool.{Bool, true, false, ◌&&◌}
use mathlib.Core.Option.{none, some}
use Prim.Native.Nat.{ℕ, suc, ◌+◌}
use mathlib.Core.List.{List, [], ◌∷◌, ◌++◌, map}
use native.Mathlib.Omega.{arith}
use satgonetem.Base.Tests.{Eq, ◌==◌, if◌then◌else◌, Bool-cases, Option-cases, pair_eq}
use satgonetem.Base.Dicts.{Dict, get, put, keys, mem, mem-keys-put}

module _ {ℓ} {A : Type ℓ} where
  -- `[x for x in xs if q(x)]`
  abbrev pub filter : (A → Bool) → List A → List A
  filter q [] = []
  filter q (x ∷ xs) = let rest = filter q xs in if q x then x ∷ rest else rest

module _ {ℓ} {A : Type ℓ} ⦃e : Eq A⦄ where
  pub mem-filter : (q : A → Bool) (a : A) (xs : List A) → mem a (filter q xs) ≡ (mem a xs && q a)
  mem-filter q a [] = refl
  mem-filter q a (x ∷ xs) = elim (Bool-cases (x == a)) [
    | inl y ↦
        let same : x ≡ a = (e.beq_iff x a).0 y in
        let q_same : q x ≡ q a = ap q same in ground (arith, mem-filter q a xs)
    | inr n ↦ ground (arith, mem-filter q a xs)
  ]

module _ {ℓ κ} {K : Type ℓ} {V : Type κ} ⦃e : Eq K⦄ ⦃f : Eq V⦄ where
  -- No key has two values.
  abbrev pub OnePerKey : Dict K V → Type (ℓ ⊔ κ)
  OnePerKey d = (k : K) (v w : V) → mem (k, v) d ≡ true → mem (k, w) d ≡ true → v ≡ w

  pub mem_of_get : (k : K) (v : V) (d : Dict K V) → get k d ≡ some v → mem (k, v) d ≡ true
  mem_of_get k v [] h = ground arith
  mem_of_get k v ((j, w) ∷ d) h = ground (arith, f.beq_iff w v, mem_of_get k v d)

  pub get-ne-none_of_mem : (k : K) (v : V) (d : Dict K V) → mem (k, v) d ≡ true → get k d ≢ none
  get-ne-none_of_mem k v [] h = ground arith
  get-ne-none_of_mem k v ((j, w) ∷ d) h = ground (arith, get-ne-none_of_mem k v d)

  pub get_of_mem :
      (k : K) (v : V) (d : Dict K V) → OnePerKey d → mem (k, v) d ≡ true → get k d ≡ some v
  get_of_mem k v d one m = elim (Option-cases (get k d)) [
    | inl gone ↦ absurd (get-ne-none_of_mem k v d m gone)
    | inr (w, found) ↦ found ∙ ap some (one k w v (mem_of_get k w d found) m)
  ]

  -- `k in {k for k, v in d}` says that the association list has a value for `k`.
  pub mem-map_keys : (k : K) (d : Dict K V) → mem k (map (λ p. p.0) d) ≡ false → get k d ≡ none
  mem-map_keys k [] h = refl
  mem-map_keys k ((j, w) ∷ d) h = ground (arith, mem-map_keys k d)

  pub get-ne-none_of_mem-map :
      (k : K) (d : Dict K V) → mem k (map (λ p. p.0) d) ≡ true → get k d ≢ none
  get-ne-none_of_mem-map k [] h = ground arith
  get-ne-none_of_mem-map k ((j, w) ∷ d) h = ground (arith, get-ne-none_of_mem-map k d)

  pub mem-map_keys_of_mem :
      (k : K) (v : V) (d : Dict K V) → mem (k, v) d ≡ true → mem k (map (λ p. p.0) d) ≡ true
  mem-map_keys_of_mem k v d m = elim (Bool-cases (mem k (map (λ p. p.0) d))) [
    | inl y ↦ y
    | inr n ↦ absurd (get-ne-none_of_mem k v d m (mem-map_keys k d n))
  ]

  -- Association lists with the same pairs, and one value for a key, give the same values.
  pub OnePerKey-same :
      (c d : Dict K V) → ((p : K × V) → mem p c ≡ mem p d) → OnePerKey d → OnePerKey c
  OnePerKey-same c d same one k v w m n = one k v w (sym (same (k, v)) ∙ m) (sym (same (k, w)) ∙ n)

  pub get-same :
      (k : K) (c d : Dict K V) → ((p : K × V) → mem p c ≡ mem p d) → OnePerKey d → get k c ≡ get k d
  get-same k c d same one = elim (Option-cases (get k d)) [
    | inl gone ↦ elim (Option-cases (get k c)) [
      | inl both ↦ both ∙ sym gone
      | inr (v, found) ↦
          absurd (get-ne-none_of_mem k v d (sym (same (k, v)) ∙ mem_of_get k v c found) gone)
    ]
    | inr (v, found) ↦
        get_of_mem k v c (OnePerKey-same c d same one) (same (k, v) ∙ mem_of_get k v d found)
        ∙ sym found
  ]

-- Lengths in the native numbers, and lists without repetition.
module _ {ℓ} {A : Type ℓ} where
  abbrev pub length : List A → ℕ
  length [] = 0
  length (x ∷ xs) = suc (length xs)

  pub length-append : (xs ys : List A) → length (xs ++ ys) ≡ length xs + length ys
  length-append [] ys = omega arith
  length-append (x ∷ xs) ys = omega (arith, length-append xs ys)

module _ {ℓ} {A : Type ℓ} ⦃e : Eq A⦄ where
  abbrev pub AllDistinct : List A → Type 0
  AllDistinct [] = Unit
  AllDistinct (x ∷ xs) = (mem x xs ≡ false) × AllDistinct xs

module _ {ℓ κ} {K : Type ℓ} {V : Type κ} ⦃e : Eq K⦄ where
  -- A dictionary built by `put` has no key twice.
  pub AllDistinct-keys-put :
      (k : K) (v : V) (d : Dict K V) → AllDistinct (keys d) → AllDistinct (keys (put k v d))
  AllDistinct-keys-put k v [] h = (refl, tt)
  AllDistinct-keys-put k v ((j, w) ∷ d) h =
      ground
        (arith, e.beq_iff j k, e.beq_iff k j, mem-keys-put k j v d, AllDistinct-keys-put k v d h.1)

  pub get-none_of_keys : (k : K) (d : Dict K V) → mem k (keys d) ≡ false → get k d ≡ none
  get-none_of_keys k [] h = refl
  get-none_of_keys k ((j, w) ∷ d) h = ground (arith, get-none_of_keys k d)
