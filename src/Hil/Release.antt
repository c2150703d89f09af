-- ===== src/Hil/Release.antt =====
-- The end of a run of the hardware-in-the-loop manager (launchers/hil_manager.py).
use satgonetem.Base.{
  ℕ, ◌≡◌, refl, sym, ap, ◌∙◌, subst, Bool, true, false, not, ◌&&◌, Bool-cases, inl, inr, some, List,
  [], ◌∷◌, Text, decimal, text_eq, nat_eq, nat_beq, nat_beq_iff, ◌==◌, ==_refl, ==_iff,
  decimal-injective, if◌then◌else◌, Result, ok, raise, Dict, pop, keys, values, mem, AllDistinct,
  arith,
}
use satgonetem.Acts.{each, pure, continue, handle, ◌>>=◌}
use satgonetem.Hil.{
  Hil, Machine, get_link, delete_link, bridge_name, host_veth, with_machine, ask, delete_bridge,
  delete_found, teardown_bridge, teardown_all,
}
use satgonetem.Hil.Books.{Paired, Books}

-- An answer with no link: an exception, as pyroute2 raises it for a name that there is not, or none.
abbrev pub IsMissing : Result (List ℕ) → Type 0
IsMissing (raise x) = Unit
IsMissing (ok []) = Unit
IsMissing (ok (_ ∷ _)) = ⊥

-- What the machine is documented to do with bridges: a link is found by its name, a name that there
-- is not leaves the machine as it is, and to delete a bridge by the index found removes it and no
-- other one.
pub record HasBridges {K : Type 0} (host : Machine K) (present : ℕ → K → Bool) (index : ℕ → K → ℕ)
    : Type 0 where
  pub found :
      (id : ℕ) (k : K)
      → present id k ≡ true
      → host (get_link (bridge_name id)) k ≡ (k, ok (index id k ∷ []))
  pub missing :
      (id : ℕ) (k : K)
      → present id k ≡ false
      → (r : Result (List ℕ)) × (host (get_link (bridge_name id)) k ≡ (k, r)) × IsMissing r
  pub gone :
      (id : ℕ) (k : K)
      → present id k ≡ true
      → (j : ℕ)
      → present j (host (delete_link (index id k)) k).0 ≡ (present j k && not (nat_beq id j))

bridge_name_eq : (id j : ℕ) → (bridge_name id == bridge_name j) ≡ (id == j)
bridge_name_eq id j = elim (Bool-cases (nat_beq id j)) [
  | inl y ↦
      let same : id ≡ j = (nat_beq_iff id j).0 y in
      rw same (==_refl (bridge_name j) ∙ sym (==_refl j))
  | inr n ↦ ground (
    arith,
    ==_iff (decimal id) (decimal j),
    decimal-injective id j,
    Bool-cases (decimal id == decimal j),
  )
]

pop_absent : (g : Text) (d : Dict Text Text) → mem g (keys d) ≡ false → pop g d ≡ d
pop_absent g [] h = refl
pop_absent g ((j, w) ∷ d) h = ground (arith, pop_absent g d)

abbrev ids_of : (hardware bs vs : Dict Text Text) → Paired hardware bs vs → List ℕ
ids_of hardware [] [] p = []
ids_of hardware [] (_ ∷ _) p = []
ids_of hardware (_ ∷ _) [] p = []
ids_of hardware ((g, b) ∷ bs) ((n, v) ∷ vs) (_, _, (id, _, _), rest) =
    id ∷ ids_of hardware bs vs rest

module _ {K : Type 0} (host : Machine K) (present : ℕ → K → Bool) (index : ℕ → K → ℕ) where
  -- The machine after the bridge of a number is asked for and deleted.
  abbrev without_link : ℕ → K → K
  without_link id k = if present id k then (host (delete_link (index id k)) k).0 else k

  abbrev without_links : List ℕ → K → K
  without_links [] k = k
  without_links (id ∷ ids) k = without_links ids (without_link id k)

  module _ (laws : HasBridges host present index) where
    without_link-present :
        (id j : ℕ) (k : K) → present j (without_link id k) ≡ (present j k && not (nat_beq id j))
    without_link-present id j k = elim (Bool-cases (present id k)) [
      | inl y ↦ rw y (laws.gone id k y j)
      | inr n ↦ elim (Bool-cases (nat_beq id j)) [
        | inl e ↦
            let same : id ≡ j = (nat_beq_iff id j).0 e in ground (arith, ap (λ i. present i k) same)
        | inr e ↦ ground arith
      ]
    ]

    without_links-present :
        (ids : List ℕ) (j : ℕ) (k : K)
        → present j (without_links ids k) ≡ (present j k && not (mem j ids))
    without_links-present [] j k = ground arith
    without_links-present (id ∷ ids) j k =
        without_links-present ids j (without_link id k)
        ∙ ground (arith, without_link-present id j k)

    deleted :
        (h : Hil K) (r : K × Result (List ℕ))
        → handle (λ _. pure tt) (continue (λ _. pure tt) (with_machine h r))
          ≡ (record h { machine = r.0 }, ok tt)
    unfolding ◌>>=◌
    deleted h (k, ok is) = refl
    deleted h (k, raise x) = refl

    -- Asking for a bridge that there is not changes nothing, and what it raises is caught.
    not_found :
        (h : Hil K) (r : Result (List ℕ))
        → IsMissing r
        → handle
            (λ _. pure tt)
            (continue (λ _. pure tt) (continue (delete_found host) (with_machine h (h.machine, r))))
          ≡ (h, ok tt)
    unfolding ◌>>=◌
    not_found h (raise x) none = refl
    not_found h (ok []) none = refl
    not_found h (ok (i ∷ is)) none = absurd none

    delete_bridge_lem :
        (id : ℕ) (h : Hil K)
        → delete_bridge host (some (bridge_name id)) h
          ≡ (record h { machine = without_link id h.machine }, ok tt)
    unfolding ◌>>=◌ ask
    delete_bridge_lem id h = elim (Bool-cases (present id h.machine)) [
      | inl y ↦
          rw (laws.found id h.machine y, y)
            (deleted h (host (delete_link (index id h.machine)) h.machine))
      | inr n ↦
          let (r, answered, none) = laws.missing id h.machine n in
          rw (answered, n) (not_found h r none)
    ]

    abbrev at : Hil K → Dict Text Text → Dict Text Text → K → Hil K
    at h bs vs k = record h { hil_bridges = bs; hil_veths = vs; machine = k }

    teardown_first :
        (h : Hil K) (g : Text) (id : ℕ) (bs vs : Dict Text Text) (k : K)
        → mem g (keys bs) ≡ false
        → mem g (keys vs) ≡ false
        → teardown_bridge host g (at h ((g, bridge_name id) ∷ bs) ((g, host_veth id) ∷ vs) k)
          ≡ (at h bs vs (without_link id k), ok tt)
    unfolding teardown_bridge ◌>>=◌
    teardown_first h g id bs vs k fresh_b fresh_v =
        rw (==_refl g, pop_absent g bs fresh_b, pop_absent g vs fresh_v)
          (delete_bridge_lem id (at h bs vs k))

    keys-Paired : (hardware bs vs : Dict Text Text) → Paired hardware bs vs → keys vs ≡ keys bs
    keys-Paired hardware [] [] p = refl
    keys-Paired hardware [] (_ ∷ _) p = absurd p
    keys-Paired hardware (_ ∷ _) [] p = absurd p
    keys-Paired hardware ((g, b) ∷ bs) ((n, v) ∷ vs) (same, _, _, rest) =
        rw (same, keys-Paired hardware bs vs rest) refl

    teardown_each :
        (h : Hil K) (hardware bs vs : Dict Text Text) (k : K) (p : Paired hardware bs vs)
        → AllDistinct (keys bs)
        → each (teardown_bridge host) (keys bs) (at h bs vs k)
          ≡ (at h [] [] (without_links (ids_of hardware bs vs p) k), ok tt)
    unfolding ◌>>=◌
    teardown_each h hardware [] [] k p d = refl
    teardown_each h hardware [] (_ ∷ _) k p d = absurd p
    teardown_each h hardware (_ ∷ _) [] k p d = absurd p
    teardown_each h hardware ((g, b) ∷ bs) ((n, v) ∷ vs) k (same, has, (id, eb, ev), rest)
          (fresh, d) =
        let fresh_v : mem g (keys vs) ≡ false =
          subst (λ ks. mem g ks ≡ false) (sym (keys-Paired hardware bs vs rest)) fresh in
        rw (same, eb, ev, teardown_first h g id bs vs k fresh fresh_v)
          (teardown_each h hardware bs vs (without_link id k) rest d)

    mem-ids_of :
        (j : ℕ) (hardware bs vs : Dict Text Text) (p : Paired hardware bs vs)
        → mem j (ids_of hardware bs vs p) ≡ mem (bridge_name j) (values bs)
    mem-ids_of j hardware [] [] p = refl
    mem-ids_of j hardware [] (_ ∷ _) p = absurd p
    mem-ids_of j hardware (_ ∷ _) [] p = absurd p
    mem-ids_of j hardware ((g, b) ∷ bs) ((n, v) ∷ vs) (same, has, (id, eb, ev), rest) =
        rw (eb, bridge_name_eq id j, mem-ids_of j hardware bs vs rest) refl

    -- The books of the manager are in order, and on the machine a bridge is found by its name,
    -- asking for one that there is not changes nothing, whether it raises or answers no link, and
    -- deleting by the index found removes it and no other bridge. Then `teardown_all` raises
    -- nothing, leaves both dictionaries empty, and exactly the bridges remain on the machine that
    -- were there and were not recorded.
    pub teardown_all_lem :
        (hardware : Dict Text Text) (h : Hil K)
        → Books hardware h
        → let after = teardown_all host h in
          (after.1 ≡ ok tt)
          × (after.0.hil_bridges ≡ [])
          × (after.0.hil_veths ≡ [])
          × ((j : ℕ)
              → present j after.0.machine
                ≡ (present j h.machine && not (mem (bridge_name j) (values h.hil_bridges))))
    unfolding teardown_all ◌>>=◌
    teardown_all_lem hardware h b =
        rw (teardown_each h hardware h.hil_bridges h.hil_veths h.machine b.paired b.distinct) (
          refl,
          refl,
          refl,
          λ j.
              without_links-present (ids_of hardware h.hil_bridges h.hil_veths b.paired) j h.machine
              ∙ ap (λ m. present j h.machine && not m)
                  (mem-ids_of j hardware h.hil_bridges h.hil_veths b.paired),
        )
