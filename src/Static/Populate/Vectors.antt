-- ===== src/Static/Populate/Vectors.antt =====
-- The vectors that the transposition fills, and what it leaves in them.
use Prim.Native.Nat.{◌≤◌, ◌<◌}
use mathlib.Core.List.{append-nil, append_assoc}
use satgonetem.Base.{
  ℕ, zero, suc, ◌+◌, ◌≡◌, refl, ap, inl, inr, not, ◌&&◌, Option, none, some, List, [], ◌∷◌, ◌++◌,
  Dict, get, put, keys, get-put, length, length-append, AllDistinct, AllDistinct-keys-put,
  get-none_of_keys, ◌==◌, nat_beq, if◌then◌else◌, Bool-cases, or_else, arith, nat_eq,
}
use satgonetem.Static.Install.{Signature}
use satgonetem.Static.Populate.{
  second_last, add_hop, next_hops_to, no_route, set, or_no_route, transpose_one, transpose_from,
  signature_of,
}

-- The next hop at an index, and the next hop of `src` in the dictionary at an index.
abbrev pub at : Signature → ℕ → Option ℕ
at [] i = none
at (h ∷ hs) zero = h
at (h ∷ hs) (suc i) = at hs i

abbrev pub pick : List (Dict ℕ ℕ) → ℕ → ℕ → Option ℕ
pick [] i src = none
pick (d ∷ ds) zero src = get src d
pick (d ∷ ds) (suc i) src = pick ds i src

length-set : (s : Signature) (i hop : ℕ) → length (set s i hop) ≡ length s
length-set [] i hop = refl
length-set (h ∷ hs) zero hop = refl
length-set (h ∷ hs) (suc i) hop = ap suc (length-set hs i hop)

at-set :
    (s : Signature) (i j hop : ℕ)
    → i < length s
    → at (set s i hop) j ≡ (if nat_beq i j then some hop else at s j)
at-set [] i j hop h = elim h [ ]
at-set (x ∷ s) zero zero hop h = refl
at-set (x ∷ s) zero (suc j) hop h = ground arith
at-set (x ∷ s) (suc i) zero hop h = ground arith
at-set (x ∷ s) (suc i) (suc j) hop h = ground (arith, at-set s i j hop (omega arith))

length-no_route : (n : ℕ) → length (no_route n) ≡ n
length-no_route zero = refl
length-no_route (suc n) = ap suc (length-no_route n)

at-no_route : (n i : ℕ) → at (no_route n) i ≡ none
at-no_route zero i = refl
at-no_route (suc n) zero = refl
at-no_route (suc n) (suc i) = at-no_route n i

pick-snoc :
    (ds : List (Dict ℕ ℕ)) (d : Dict ℕ ℕ) (j src : ℕ)
    → pick (ds ++ d ∷ []) j src ≡ (if nat_beq (length ds) j then get src d else pick ds j src)
pick-snoc [] d zero src = refl
pick-snoc [] d (suc j) src = ground arith
pick-snoc (c ∷ ds) d zero src = ground arith
pick-snoc (c ∷ ds) d (suc j) src = ground (arith, pick-snoc ds d j src)

pick-length : (ds : List (Dict ℕ ℕ)) (src : ℕ) → pick ds (length ds) src ≡ none
pick-length [] src = refl
pick-length (d ∷ ds) src = pick-length ds src

-- The vector of a source in a partly filled map.
abbrev row : ℕ → Dict ℕ Signature → ℕ → Signature
row n by_src src = or_no_route n (get src by_src)

abbrev Sized : ℕ → Dict ℕ Signature → Type 0
Sized n by_src = (src : ℕ) → length (row n by_src src) ≡ n

row-put :
    (n k src : ℕ) (s : Signature) (by_src : Dict ℕ Signature)
    → row n (put k s by_src) src ≡ (if nat_beq k src then s else row n by_src src)
row-put n k src s by_src = ground (arith, get-put k src s by_src)

module _ (n i : ℕ) (in_range : i < n) where
  transpose_put-Sized :
      (k hop : ℕ) (by_src : Dict ℕ Signature)
      → Sized n by_src
      → Sized n (put k (set (row n by_src k) i hop) by_src)
  transpose_put-Sized k hop by_src sized src = ground (
    arith,
    row-put n k src (set (row n by_src k) i hop) by_src,
    length-set (row n by_src k) i hop,
    sized k,
    sized src,
  )

  transpose_one-Sized :
      (hops : Dict ℕ ℕ) (by_src : Dict ℕ Signature)
      → Sized n by_src
      → Sized n (transpose_one n i hops by_src)
  unfolding transpose_one
  transpose_one-Sized [] by_src sized = sized
  transpose_one-Sized ((k, hop) ∷ hops) by_src sized =
      transpose_one-Sized hops (put k (set (row n by_src k) i hop) by_src)
        (transpose_put-Sized k hop by_src sized)

  at-transpose_one :
      (hops : Dict ℕ ℕ) (by_src : Dict ℕ Signature) (src j : ℕ)
      → AllDistinct (keys hops)
      → Sized n by_src
      → at (row n (transpose_one n i hops by_src) src) j ≡ (
          if nat_beq i j
          then or_else (get src hops) (at (row n by_src src) j)
          else at (row n by_src src) j)
  unfolding transpose_one
  at-transpose_one [] by_src src j distinct sized = ground arith
  at-transpose_one ((k, hop) ∷ hops) by_src src j distinct sized = ground (
    arith,
    at-transpose_one hops (put k (set (row n by_src k) i hop) by_src) src j distinct.1
        (transpose_put-Sized k hop by_src sized),
    row-put n k src (set (row n by_src k) i hop) by_src,
    at-set (row n by_src k) i j hop,
    sized k,
    get-none_of_keys k hops distinct.0,
  )

abbrev pub DistinctKeys : List (Dict ℕ ℕ) → Type 0
DistinctKeys [] = Unit
DistinctKeys (d ∷ ds) = AllDistinct (keys d) × DistinctKeys ds

module _ (n : ℕ) where
  -- The vectors made so far hold the next hops of the destinations that are done.
  abbrev Holds : List (Dict ℕ ℕ) → Dict ℕ Signature → Type 0
  Holds done by_src = (src j : ℕ) → at (row n by_src src) j ≡ pick done j src

  transpose_from-Holds :
      (rest done : List (Dict ℕ ℕ)) (by_src : Dict ℕ Signature) (i : ℕ)
      → length done ≡ i
      → i + length rest ≤ n
      → DistinctKeys rest
      → Sized n by_src
      → Holds done by_src
      → Holds (done ++ rest) (transpose_from n i rest by_src)
  unfolding transpose_from
  transpose_from-Holds [] done by_src i len fits distinct sized holds src j =
      rw append-nil (holds src j)
  transpose_from-Holds (d ∷ rest) done by_src i len fits distinct sized holds src j =
      rw (← append_assoc done (d ∷ []) rest) (
        transpose_from-Holds rest (done ++ d ∷ []) (transpose_one n i d by_src) (suc i)
          (omega (arith, length-append done (d ∷ []))) (omega arith) distinct.1
          (transpose_one-Sized n i in_range d by_src sized)
          (λ src j. ground (
            arith,
            at-transpose_one n i in_range d by_src src j distinct.0 sized,
            pick-snoc done d j src,
            holds src j,
            pick-length done src,
            len,
          ))
          src j)
    where
      in_range : i < n
      in_range = omega arith

-- The vector of a source, next hop by next hop.
pub at-signature_of :
    (next_hops : List (Dict ℕ ℕ)) (src j : ℕ)
    → DistinctKeys next_hops
    → at (signature_of next_hops (length next_hops) src) j ≡ pick next_hops j src
unfolding signature_of
at-signature_of next_hops src j distinct =
    transpose_from-Holds (length next_hops) next_hops [] [] 0 refl (omega arith) distinct
      (λ s. length-no_route (length next_hops)) (λ s i. at-no_route (length next_hops) i) src j

-- What `path[-2]` gives for `src` among the paths, if it is another vertex than `dst`.
abbrev pub hop_toward : ℕ → List (ℕ × List ℕ) → ℕ → Option ℕ
hop_toward dst paths src =
    if src == dst then none else elim (get src paths) [ none ↦ none | some p ↦ second_last p ]

get-add_hop :
    (dst v : ℕ) (hop : Option ℕ) (hops : Dict ℕ ℕ) (src : ℕ)
    → get src (add_hop dst v hop hops)
      ≡ (if v == src && not (src == dst) then or_else hop (get src hops) else get src hops)
unfolding add_hop
get-add_hop dst v none hops src = ground arith
get-add_hop dst v (some hop) hops src = ground (arith, get-put v src hop hops)

AllDistinct-add_hop :
    (dst v : ℕ) (hop : Option ℕ) (hops : Dict ℕ ℕ)
    → AllDistinct (keys hops)
    → AllDistinct (keys (add_hop dst v hop hops))
unfolding add_hop
AllDistinct-add_hop dst v none hops distinct = distinct
AllDistinct-add_hop dst v (some hop) hops distinct = elim (Bool-cases (v == dst)) [
  | inl y ↦ rw (y, add_hop) distinct
  | inr n ↦ rw (n, add_hop) (AllDistinct-keys-put v hop hops distinct)
]

pub get-next_hops_to :
    (dst : ℕ) (paths : List (ℕ × List ℕ)) (hops : Dict ℕ ℕ) (src : ℕ)
    → AllDistinct (keys paths)
    → get src (next_hops_to dst paths hops) ≡ or_else (hop_toward dst paths src) (get src hops)
unfolding next_hops_to
get-next_hops_to dst [] hops src distinct = ground arith
get-next_hops_to dst ((v, path) ∷ paths) hops src distinct = ground (
  arith,
  get-next_hops_to dst paths (add_hop dst v (second_last path) hops) src distinct.1,
  get-add_hop dst v (second_last path) hops src,
  get-none_of_keys v paths distinct.0,
)

pub AllDistinct-next_hops_to :
    (dst : ℕ) (paths : List (ℕ × List ℕ)) (hops : Dict ℕ ℕ)
    → AllDistinct (keys hops)
    → AllDistinct (keys (next_hops_to dst paths hops))
unfolding next_hops_to
AllDistinct-next_hops_to dst [] hops distinct = distinct
AllDistinct-next_hops_to dst ((v, path) ∷ paths) hops distinct =
    AllDistinct-next_hops_to dst paths (add_hop dst v (second_last path) hops)
      (AllDistinct-add_hop dst v (second_last path) hops distinct)
