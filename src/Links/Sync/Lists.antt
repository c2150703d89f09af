-- ===== src/Links/Sync/Lists.antt =====
-- The lists of changes, the flags of absent links, and the refresh of distances, key by key
-- (services/mixins/topology_sync.py).
use satgonetem.Base.{
  ◌≡◌, refl, ap, subst, ◌∙◌, inl, inr, Bool, true, false, Bool-cases, Option, none, some, List, [],
  ◌∷◌, ◌==◌, ==_iff, text_eq, pair_eq, list_eq, nat_eq, if◌then◌else◌, Result-cases, Dict, get, mem,
  keys, AllDistinct, arith, ℕ,
}
use satgonetem.Links.{
  Key, Link, Physics, update_distance_and_delay, refresh_link_capacities, update_link_capacities,
}
use satgonetem.Links.Sync.{
  keys_where, in_add, in_update, in_remove, collect, modify, refresh_distance,
  refresh_link_distances, mark_absent,
}

abbrev pub on_link : (Link → Bool) → Option Link → Bool
on_link test none = false
on_link test (some l) = test l

keys_where-absent :
    (test : Link → Bool) (k : Key) (d : Dict Key Link)
    → mem k (keys d) ≡ false
    → mem k (keys_where test d) ≡ false
unfolding keys_where
keys_where-absent test k [] h = refl
keys_where-absent test k ((j, l) ∷ d) h = ground (arith, keys_where-absent test k d)

-- A key is in a list exactly if its link is selected.
pub mem-keys_where :
    (test : Link → Bool) (k : Key) (d : Dict Key Link)
    → AllDistinct (keys d)
    → mem k (keys_where test d) ≡ on_link test (get k d)
unfolding keys_where
mem-keys_where test k [] distinct = refl
mem-keys_where test k ((j, l) ∷ d) distinct = elim (Bool-cases (j == k)) [
  | inl same ↦
      let e : j ≡ k = (==_iff j k).0 same in
      let absent : mem k (keys_where test d) ≡ false =
        subst (λ i. mem i (keys_where test d) ≡ false) e (keys_where-absent test j d distinct.0) in
      ground arith
  | inr other ↦
      let rest : mem k (keys_where test d) ≡ on_link test (get k d) =
        mem-keys_where test k d distinct.1 in
      ground arith
]

-- Where no key stands twice, a key is in the list of links to remove exactly if its link is marked
-- so, in the list of links to add exactly if it is marked so and is not to be removed, and in the
-- list of links to update exactly if it is marked so and is neither to be removed nor to be added.
pub collect_lem :
    (k : Key) (d : Dict Key Link)
    → AllDistinct (keys d)
    → (mem k (collect d).links_to_remove ≡ on_link in_remove (get k d))
      × (mem k (collect d).links_to_add ≡ on_link in_add (get k d))
      × (mem k (collect d).links_to_update ≡ on_link in_update (get k d))
unfolding collect
collect_lem k d distinct = (
  mem-keys_where in_remove k d distinct,
  mem-keys_where in_add k d distinct,
  mem-keys_where in_update k d distinct,
)

abbrev pub marked : Bool → Option Link → Option Link
marked present none = none
marked present (some l) = some (if present then l else record l { to_remove = true })

pub get-mark_absent :
    (current : List Key) (k : Key) (d : Dict Key Link)
    → get k (mark_absent current d) ≡ marked (mem k current) (get k d)
unfolding mark_absent
get-mark_absent current k [] = refl
get-mark_absent current k ((j, l) ∷ d) = elim (Bool-cases (j == k)) [
  | inl same ↦
      let e : j ≡ k = (==_iff j k).0 same in
      rw same (
        ap (λ b. some (if b then l else record l { to_remove = true })) (ap (λ i. mem i current) e))
  | inr other ↦ rw other (get-mark_absent current k d)
]

abbrev pub changed : (Link → Link) → Option Link → Option Link
changed f none = none
changed f (some l) = some (f l)

pub get-modify :
    (j k : Key) (f : Link → Link) (d : Dict Key Link)
    → get k (modify j f d) ≡ (if j == k then changed f (get k d) else get k d)
unfolding modify
get-modify j k f [] = ground arith
get-modify j k f ((i, l) ∷ d) =
    ground (arith, ==_iff i j, ==_iff j i, ==_iff i k, ==_iff j k, get-modify j k f d)

-- What the refresh of distances leaves as it is.
pub record SameFlags (l m : Link) : Type 0 where
  pub active_eq : m.is_active ≡ l.is_active
  pub add_eq : m.to_add ≡ l.to_add
  pub remove_eq : m.to_remove ≡ l.to_remove
  pub source_eq : m.source ≡ l.source
  pub target_eq : m.target ≡ l.target

SameFlags-refl : (l : Link) → SameFlags l l
SameFlags-refl l = record {
  active_eq = refl;
  add_eq = refl;
  remove_eq = refl;
  source_eq = refl;
  target_eq = refl;
}

SameFlags-trans : {l m n : Link} → SameFlags l m → SameFlags m n → SameFlags l n
SameFlags-trans a b = record {
  active_eq = b.active_eq ∙ a.active_eq;
  add_eq = b.add_eq ∙ a.add_eq;
  remove_eq = b.remove_eq ∙ a.remove_eq;
  source_eq = b.source_eq ∙ a.source_eq;
  target_eq = b.target_eq ∙ a.target_eq;
}

module _ (physics : Physics) where
  refresh_link_capacities-SameFlags : (l : Link) → SameFlags l (refresh_link_capacities physics l)
  unfolding refresh_link_capacities update_link_capacities
  refresh_link_capacities-SameFlags l = ground arith

  update_distance_and_delay-SameFlags :
      (distance : ℕ) (l : Link) → SameFlags l (update_distance_and_delay physics distance l)
  unfolding update_distance_and_delay
  update_distance_and_delay-SameFlags distance l = ground (
    arith,
    refresh_link_capacities-SameFlags (record l { distance = distance }),
    refresh_link_capacities-SameFlags
        (record l { distance = distance; delay = physics.delay_of distance; to_update = true }),
  )

  refresh_distance-SameFlags : (l : Link) → SameFlags l (refresh_distance physics l)
  refresh_distance-SameFlags l = elim (Result-cases (physics.distance_between l.source l.target)) [
    | inl (distance, e) ↦ rw (refresh_distance, e) (update_distance_and_delay-SameFlags distance l)
    | inr (x, e) ↦ rw (refresh_distance, e) (SameFlags-refl l)
  ]

  pub get-refresh_link_distances :
      (ks : List Key) (k : Key) (d : Dict Key Link) (l : Link)
      → get k d ≡ some l
      → (m : Link) × (get k (refresh_link_distances physics ks d) ≡ some m) × SameFlags l m
  unfolding refresh_link_distances
  get-refresh_link_distances [] k d l e = (l, e, SameFlags-refl l)
  get-refresh_link_distances (j ∷ ks) k d l e = elim (Bool-cases (j == k)) [
    | inl same ↦
        let (m, found, keep) =
          get-refresh_link_distances ks k (modify j (refresh_distance physics) d)
            (refresh_distance physics l)
            (get-modify j k (refresh_distance physics) d ∙ rw (same, e) refl) in
        (m, found, SameFlags-trans (refresh_distance-SameFlags l) keep)
    | inr other ↦
        get-refresh_link_distances ks k (modify j (refresh_distance physics) d) l
          (get-modify j k (refresh_distance physics) d ∙ rw other e)
  ]

  pub get-refresh_link_distances-none :
      (ks : List Key) (k : Key) (d : Dict Key Link)
      → get k d ≡ none
      → get k (refresh_link_distances physics ks d) ≡ none
  unfolding refresh_link_distances
  get-refresh_link_distances-none [] k d e = e
  get-refresh_link_distances-none (j ∷ ks) k d e =
      get-refresh_link_distances-none ks k (modify j (refresh_distance physics) d) (
        get-modify j k (refresh_distance physics) d
        ∙ elim (Bool-cases (j == k)) [ inl y ↦ rw (y, e) refl | inr n ↦ rw (n, e) refl ])
