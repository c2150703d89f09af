-- ===== src/Links/Sync/Removed.antt =====
-- `_sync_links` as a whole (services/mixins/topology_sync.py).
use satgonetem.Base.{
  ◌≡◌, refl, ap, ◌∙◌, ◌≢◌, Bool, true, false, not, Bool-cases, inl, inr, Option, none, some,
  Option-cases, List, [], ◌∷◌, ◌++◌, ◌==◌, text_eq, pair_eq, list_eq, nat_eq, if◌then◌else◌, Result,
  ok, raise, Dict, get, mem, mem-append, ==_refl, ◌⊎◌, keys, AllDistinct, AllDistinct-keys-put,
  arith,
}
use satgonetem.Links.{Key, Link, Physics}
use satgonetem.Links.Sync.{
  SatLink, Settings, Pass, Valid, valid_link, key_of, sync_valid, sync_one, sync_each, sync_key,
  add_created, sync_existing, new_active, activate, bool_same, simulated_keys, mark_absent, modify,
  refresh_distance, refresh_link_distances, collect, in_remove, sync_links, keys_where,
}
use satgonetem.Links.Sync.Loop.{sync_each-current, sync_each-other, sync_each-existing}
use satgonetem.Links.Sync.Lists.{
  on_link, mem-keys_where, get-mark_absent, SameFlags, get-refresh_link_distances,
}

keys-modify : (k : Key) (f : Link → Link) (d : Dict Key Link) → keys (modify k f d) ≡ keys d
unfolding modify
keys-modify k f [] = refl
keys-modify k f ((j, l) ∷ d) = elim (Bool-cases (j == k)) [
  | inl y ↦ rw y refl
  | inr n ↦ rw n (ap (λ ks. j ∷ ks) (keys-modify k f d))
]

keys-mark_absent : (current : List Key) (d : Dict Key Link) → keys (mark_absent current d) ≡ keys d
unfolding mark_absent
keys-mark_absent current [] = refl
keys-mark_absent current ((k, l) ∷ d) = ap (λ ks. k ∷ ks) (keys-mark_absent current d)

mem-simulated_keys :
    (before : List SatLink) (s : SatLink) (after : List SatLink) (v : Valid)
    → valid_link s ≡ some v
    → mem v.key (simulated_keys (before ++ s ∷ after)) ≡ true
unfolding simulated_keys
mem-simulated_keys [] s after v valid = rw (key_of, valid) (ground (arith, ==_refl v.key))
mem-simulated_keys (t ∷ ts) s after v valid =
    mem-append v.key (key_of (valid_link t)) (simulated_keys (ts ++ s ∷ after))
    ∙ ground (arith, mem-simulated_keys ts s after v valid)

-- A link that was known, after its link of the simulation was read.
record Follows (s : SatLink) (l m : Link) : Type 0 where
  active : m.is_active ≡ new_active s
  steady : l.is_active ≡ new_active s → (m.to_add ≡ l.to_add) × (m.to_remove ≡ l.to_remove)
  changed :
      l.is_active ≢ new_active s → (m.to_add ≡ new_active s) × (m.to_remove ≡ not (new_active s))

bool_same-cases :
    (a b : Bool) → ((a ≡ b) × (bool_same a b ≡ true)) ⊎ ((a ≢ b) × (bool_same a b ≡ false))
bool_same-cases true true = inl (refl, refl)
bool_same-cases true false = inr (ground arith, refl)
bool_same-cases false true = inr (ground arith, refl)
bool_same-cases false false = inl (refl, refl)

activate-flags :
    (b : Bool) (l : Link)
    → ((activate b l).is_active ≡ b)
      × ((activate b l).to_add ≡ b)
      × ((activate b l).to_remove ≡ not b)
activate-flags true l = (refl, refl, refl)
activate-flags false l = (refl, refl, refl)

sync_existing-Follows : (s : SatLink) (l : Link) → Follows s l (sync_existing s l)
unfolding sync_existing
sync_existing-Follows s l = elim (bool_same-cases l.is_active (new_active s)) [
  | inl (same, agrees) ↦
      rw agrees
        (record { active = same; steady = λ h. (refl, refl); changed = λ h. absurd (h same) })
  | inr (other, differs) ↦
      let f : ((activate (new_active s) (record l { satcom_object = some s.reference })).is_active
            ≡ new_active s)
          × ((activate (new_active s) (record l { satcom_object = some s.reference })).to_add
              ≡ new_active s)
          × ((activate (new_active s) (record l { satcom_object = some s.reference })).to_remove
              ≡ not (new_active s)) =
        activate-flags (new_active s) (record l { satcom_object = some s.reference }) in
      rw differs
        (record { active = f.0; steady = λ h. absurd (other h); changed = λ h. (f.1, f.2) })
]

module _ (physics : Physics) where
  keys-refresh_link_distances :
      (ks : List Key) (d : Dict Key Link) → keys (refresh_link_distances physics ks d) ≡ keys d
  unfolding refresh_link_distances
  keys-refresh_link_distances [] d = refl
  keys-refresh_link_distances (k ∷ ks) d =
      keys-refresh_link_distances ks (modify k (refresh_distance physics) d)
      ∙ keys-modify k (refresh_distance physics) d

  module _ (settings : Settings) (mark : Bool) where
    add_created-AllDistinct :
        (k : Key) (r : Result Link) (p : Pass)
        → AllDistinct (keys p.links)
        → AllDistinct (keys (add_created physics settings mark k r p).links)
    add_created-AllDistinct k (raise x) p h = h
    add_created-AllDistinct k (ok l) p h = AllDistinct-keys-put k _ p.links h

    sync_valid-AllDistinct :
        (v : Option Valid) (s : SatLink) (p : Pass)
        → AllDistinct (keys p.links)
        → AllDistinct (keys (sync_valid physics settings mark v s p).links)
    sync_valid-AllDistinct none s p h = h
    sync_valid-AllDistinct (some v) s p h = elim (Option-cases (get v.key p.links)) [
      | inl e ↦ rw (sync_key, e) (add_created-AllDistinct v.key _ _ h)
      | inr (l, e) ↦ rw (sync_key, e) (AllDistinct-keys-put v.key _ p.links h)
    ]

    sync_each-AllDistinct :
        (ss : List SatLink) (p : Pass)
        → AllDistinct (keys p.links)
        → AllDistinct (keys (sync_each physics settings mark ss p).links)
    unfolding sync_each
    sync_each-AllDistinct [] p h = h
    sync_each-AllDistinct (s ∷ ss) p h =
        sync_each-AllDistinct ss (sync_one physics settings mark s p)
          (sync_valid-AllDistinct (valid_link s) s p h)

    -- Every key stays unique.
    pub sync_links-AllDistinct :
        (ss : List SatLink) (d : Dict Key Link)
        → AllDistinct (keys d)
        → AllDistinct (keys (sync_links physics settings mark ss d).0)
    unfolding sync_links
    sync_links-AllDistinct ss d h =
        let start : Pass = record { links = d; current_keys = []; distance_refresh = [] } in
        let p : Pass = sync_each physics settings mark ss start in
        rw
          (
            keys-mark_absent p.current_keys
                (refresh_link_distances physics p.distance_refresh p.links),
            keys-refresh_link_distances p.distance_refresh p.links,
          )
          (sync_each-AllDistinct ss start h)

    -- What the steps after the loop leave of a link.
    after_loop :
        (ss : List SatLink) (d : Dict Key Link) (k : Key) (l : Link)
        → get k
            (sync_each physics settings mark ss
              (record { links = d; current_keys = []; distance_refresh = [] })).links
          ≡ some l
        → (m : Link) × (get k (sync_links physics settings mark ss d).0
            ≡ some (if mem k (simulated_keys ss) then m else record m { to_remove = true }))
          × SameFlags l m
    unfolding sync_links
    after_loop ss d k l found =
        let start : Pass = record { links = d; current_keys = []; distance_refresh = [] } in
        let p : Pass = sync_each physics settings mark ss start in
        let (m, e, same) =
          get-refresh_link_distances physics p.distance_refresh k p.links l found in
        (
          m,
          rw
              (
                get-mark_absent p.current_keys k
                    (refresh_link_distances physics p.distance_refresh p.links),
                e,
              )
              (ap (λ ks. some (if mem k ks then m else record m { to_remove = true }))
                (sync_each-current physics settings mark ss start)),
          same,
        )

    pub changes_eq :
        (k : Key) (ss : List SatLink) (d : Dict Key Link)
        → mem k (sync_links physics settings mark ss d).1.links_to_remove
          ≡ mem k (keys_where in_remove (sync_links physics settings mark ss d).0)
    unfolding sync_links collect
    changes_eq k ss d = refl

    -- A link that is known and whose key no link of the simulation has is in the list of links to
    -- remove that `_sync_links` answers, if no key stands twice.
    pub sync_links-absent :
        (ss : List SatLink) (d : Dict Key Link) (k : Key) (l : Link)
        → AllDistinct (keys d)
        → get k d ≡ some l
        → mem k (simulated_keys ss) ≡ false
        → mem k (sync_links physics settings mark ss d).1.links_to_remove ≡ true
    sync_links-absent ss d k l distinct known gone =
        let after : Dict Key Link = (sync_links physics settings mark ss d).0 in
        let start : Pass = record { links = d; current_keys = []; distance_refresh = [] } in
        let (m, e, same) =
          after_loop ss d k l (sync_each-other physics settings mark k ss start gone ∙ known) in
        let flagged : get k after ≡ some (record m { to_remove = true }) =
          e ∙ ap (λ b. some (if b then m else record m { to_remove = true })) gone in
        changes_eq k ss d
        ∙ mem-keys_where in_remove k after (sync_links-AllDistinct ss d distinct)
        ∙ ap (λ o. on_link in_remove o) flagged

    -- A link is known under a key that exactly one link of the simulation has. After `_sync_links`
    -- it is there, is active as that link is, has its flags for adding and removing as before if
    -- this is no change, and otherwise is to be added, and not removed, if it became active, and to
    -- be removed, and not added, if it became inactive.
    pub sync_links-existing :
        (before : List SatLink) (s : SatLink) (after : List SatLink) (v : Valid) (l : Link)
        (d : Dict Key Link)
        → valid_link s ≡ some v
        → mem v.key (simulated_keys before) ≡ false
        → mem v.key (simulated_keys after) ≡ false
        → get v.key d ≡ some l
        → (m : Link) × (get v.key (sync_links physics settings mark (before ++ s ∷ after) d).0
            ≡ some m)
          × (m.is_active ≡ new_active s)
          × (l.is_active ≡ new_active s → (m.to_add ≡ l.to_add) × (m.to_remove ≡ l.to_remove))
          × (l.is_active ≢ new_active s
              → (m.to_add ≡ new_active s) × (m.to_remove ≡ not (new_active s)))
    sync_links-existing before s after v l d valid not_before not_after known =
        let ss : List SatLink = before ++ s ∷ after in
        let start : Pass = record { links = d; current_keys = []; distance_refresh = [] } in
        let (m, e, same) = after_loop ss d v.key (sync_existing s l) (
          sync_each-existing physics settings mark before s after v l start valid not_before
            not_after known) in
        let present : get v.key (sync_links physics settings mark ss d).0 ≡ some m =
          e
          ∙ ap (λ b. some (if b then m else record m { to_remove = true }))
              (mem-simulated_keys before s after v valid) in
        let flags : Follows s l (sync_existing s l) = sync_existing-Follows s l in
        (
          m,
          present,
          same.active_eq ∙ flags.active,
          (λ h. (same.add_eq ∙ (flags.steady h).0, same.remove_eq ∙ (flags.steady h).1)),
          (λ h. (same.add_eq ∙ (flags.changed h).0, same.remove_eq ∙ (flags.changed h).1)),
        )
