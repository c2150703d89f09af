-- ===== src/Links/Sync/Loop.antt =====
-- The loop of `_sync_links` over the links of the simulation (services/mixins/topology_sync.py).
use satgonetem.Base.{
  ◌≡◌, refl, sym, ap, ◌∙◌, inl, inr, Bool, false, ◌||◌, Option, none, some, Option-cases, List, [],
  ◌∷◌, ◌++◌, ◌==◌, text_eq, pair_eq, list_eq, nat_eq, Result, ok, raise, get, get-put, get-put_self,
  mem, mem-append, arith,
}
use satgonetem.Links.{End, Key, Link, Physics}
use satgonetem.Links.Sync.{
  SatLink, Settings, Pass, sync_existing, add_created, sync_key, Valid, valid_link, sync_valid,
  sync_one, sync_each, key_of, simulated_keys,
}

mem-one : (j k : Key) → mem j (k ∷ []) ≡ false → (k == j) ≡ false
mem-one j k h = ground arith

append_nil {ℓ} : {A : Type ℓ} (xs : List A) → xs ++ [] ≡ xs
append_nil [] = refl
append_nil (x ∷ xs) = ap (λ l. x ∷ l) (append_nil xs)

append_assoc {ℓ} : {A : Type ℓ} (xs ys zs : List A) → (xs ++ ys) ++ zs ≡ xs ++ (ys ++ zs)
append_assoc [] ys zs = refl
append_assoc (x ∷ xs) ys zs = ap (λ l. x ∷ l) (append_assoc xs ys zs)

module _ (physics : Physics) (settings : Settings) (mark : Bool) where
  add_created-current :
      (k : Key) (r : Result Link) (p : Pass)
      → (add_created physics settings mark k r p).current_keys ≡ p.current_keys
  add_created-current k (raise x) p = refl
  add_created-current k (ok l) p = refl

  sync_key-current :
      (k : Key) (from to : End) (s : SatLink) (p : Pass)
      → (sync_key physics settings mark k from to s p).current_keys ≡ p.current_keys
  sync_key-current k from to s p = elim (Option-cases (get k p.links)) [
    | inl e ↦ rw (sync_key, e) (add_created-current k _ p)
    | inr (l, e) ↦ rw (sync_key, e) refl
  ]

  sync_valid-current :
      (v : Option Valid) (s : SatLink) (p : Pass)
      → (sync_valid physics settings mark v s p).current_keys ≡ p.current_keys ++ key_of v
  sync_valid-current none s p = sym (append_nil p.current_keys)
  sync_valid-current (some v) s p = sync_key-current v.key v.from v.to s _

  -- The current keys are those of the links of the simulation.
  pub sync_each-current :
      (ss : List SatLink) (p : Pass)
      → (sync_each physics settings mark ss p).current_keys ≡ p.current_keys ++ simulated_keys ss
  unfolding sync_each simulated_keys
  sync_each-current [] p = sym (append_nil p.current_keys)
  sync_each-current (s ∷ ss) p =
      sync_each-current ss (sync_one physics settings mark s p)
      ∙ ap (λ ks. ks ++ simulated_keys ss) (sync_valid-current (valid_link s) s p)
      ∙ append_assoc p.current_keys (key_of (valid_link s)) (simulated_keys ss)

  add_created-other :
      (j k : Key) (r : Result Link) (p : Pass)
      → (k == j) ≡ false
      → get j (add_created physics settings mark k r p).links ≡ get j p.links
  add_created-other j k (raise x) p other = refl
  add_created-other j k (ok l) p other = rw (get-put k j _ p.links, other) refl

  sync_valid-other :
      (j : Key) (v : Option Valid) (s : SatLink) (p : Pass)
      → mem j (key_of v) ≡ false
      → get j (sync_valid physics settings mark v s p).links ≡ get j p.links
  sync_valid-other j none s p other = refl
  sync_valid-other j (some v) s p other = elim (Option-cases (get v.key p.links)) [
    | inl e ↦ rw (sync_key, e) (add_created-other j v.key _ _ (mem-one j v.key other))
    | inr (l, e) ↦ rw (sync_key, e) (get-put v.key j _ p.links ∙ rw (mem-one j v.key other) refl)
  ]

  -- A link that the simulation does not have stays as it is.
  pub sync_each-other :
      (j : Key) (ss : List SatLink) (p : Pass)
      → mem j (simulated_keys ss) ≡ false
      → get j (sync_each physics settings mark ss p).links ≡ get j p.links
  unfolding sync_each simulated_keys
  sync_each-other j [] p other = refl
  sync_each-other j (s ∷ ss) p other =
      let split : (mem j (key_of (valid_link s)) || mem j (simulated_keys ss)) ≡ false =
        sym (mem-append j (key_of (valid_link s)) (simulated_keys ss)) ∙ other in
      sync_each-other j ss (sync_one physics settings mark s p) (ground arith)
      ∙ sync_valid-other j (valid_link s) s p (ground arith)

  sync_valid-existing :
      (v : Valid) (s : SatLink) (p : Pass) (l : Link)
      → get v.key p.links ≡ some l
      → get v.key (sync_valid physics settings mark (some v) s p).links ≡ some (sync_existing s l)
  sync_valid-existing v s p l e = rw (sync_key, e) (get-put_self v.key (sync_existing s l) p.links)

  sync_each-append :
      (ss ts : List SatLink) (p : Pass)
      → sync_each physics settings mark (ss ++ ts) p
        ≡ sync_each physics settings mark ts (sync_each physics settings mark ss p)
  unfolding sync_each
  sync_each-append [] ts p = refl
  sync_each-append (s ∷ ss) ts p = sync_each-append ss ts (sync_one physics settings mark s p)

  -- A link that is known, and that one link of the simulation is about, follows that one.
  pub sync_each-existing :
      (before : List SatLink) (s : SatLink) (after : List SatLink) (v : Valid) (l : Link) (p : Pass)
      → valid_link s ≡ some v
      → mem v.key (simulated_keys before) ≡ false
      → mem v.key (simulated_keys after) ≡ false
      → get v.key p.links ≡ some l
      → get v.key (sync_each physics settings mark (before ++ s ∷ after) p).links
        ≡ some (sync_existing s l)
  unfolding sync_each
  sync_each-existing before s after v l p valid not_before not_after known =
      let q : Pass = sync_each physics settings mark before p in
      let held : get v.key q.links ≡ some l = sync_each-other v.key before p not_before ∙ known in
      ap (λ (r : Pass). get v.key r.links) (sync_each-append before (s ∷ after) p)
      ∙ sync_each-other v.key after (sync_one physics settings mark s q) not_after
      ∙ ap (λ o. get v.key (sync_valid physics settings mark o s q).links) valid
      ∙ sync_valid-existing v s q l held
