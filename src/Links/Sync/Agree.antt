-- ===== src/Links/Sync/Agree.antt =====
-- `_sync_links` keeps every link under the key of its ends (services/mixins/topology_sync.py).
use satgonetem.Base.{
  ◌≡◌, refl, sym, ap, ◌∙◌, subst, Bool, true, false, ◌&&◌, Bool-cases, inl, inr, Option, none, some,
  Option-cases, List, [], ◌∷◌, ◌==◌, ==_iff, text_eq, pair_eq, list_eq, nat_eq, if◌then◌else◌,
  Result, ok, ok-injective, some-injective, raise, >>=-eq-ok, Dict, get, put, get-put, mem, keys,
  AllDistinct,
}
use satgonetem.Links.{End, Key, Link, Physics, build_link_key, new_link, update_link_capacities}
use satgonetem.Links.Keys.{KeysAgree, SameEnd}
use satgonetem.Links.Sync.{
  SatLink, Settings, Pass, Valid, valid_link, valid_ends, between, sync_valid, sync_one, sync_each,
  sync_key, add_created, find_node, create_link_from_satcom_link, sync_existing, activate,
  bool_same, new_active, simulated_keys, refresh_link_distances, in_remove, sync_links,
}
use satgonetem.Links.Sync.Loop.{sync_each-current}
use satgonetem.Links.Sync.Lists.{
  on_link, marked, mem-keys_where, get-mark_absent, SameFlags, get-refresh_link_distances,
  get-refresh_link_distances-none,
}
use satgonetem.Links.Sync.Removed.{sync_links-AllDistinct, changes_eq}

-- The topology manager finds, for an end of a link of the simulation, a node of the same name.
abbrev pub IsNamed : Settings → Option Valid → Type 0
IsNamed settings none = Unit
IsNamed settings (some v) =
    ((n : End) → find_node settings v.from.uniq_id ≡ ok n → SameEnd n v.from)
    × ((n : End) → find_node settings v.to.uniq_id ≡ ok n → SameEnd n v.to)

abbrev pub AllNamed : Settings → List SatLink → Type 0
AllNamed settings [] = Unit
AllNamed settings (s ∷ ss) = IsNamed settings (valid_link s) × AllNamed settings ss

build_link_key-SameEnd :
    (a b c d : End) → SameEnd a c → SameEnd b d → build_link_key a b ≡ build_link_key c d
unfolding build_link_key
build_link_key-SameEnd a b c d (k, u) (l, v) = rw (k, u, l, v) refl

valid_ends-key :
    (from to : End) (r : Result Key) (v : Valid)
    → build_link_key from to ≡ r
    → valid_ends from to r ≡ some v
    → build_link_key v.from v.to ≡ ok v.key
valid_ends-key from to (raise x) v named e = absurd cc
valid_ends-key from to (ok k) v named e =
    let same : record { from = from; to = to; key = k } ≡ v = some-injective e in
    subst (λ (u : Valid). build_link_key u.from u.to ≡ ok u.key) same named

valid_link-key :
    (s : SatLink) (v : Valid) → valid_link s ≡ some v → build_link_key v.from v.to ≡ ok v.key
unfolding valid_link
valid_link-key s v e = by_ends s.source s.destination e
  where
    by_ends : (a b : Option End) → between a b ≡ some v → build_link_key v.from v.to ≡ ok v.key
    by_ends none b e = absurd cc
    by_ends (some a) none e = absurd cc
    by_ends (some a) (some b) e = valid_ends-key a b (build_link_key a b) v refl e

sync_existing-ends :
    (s : SatLink) (l : Link)
    → ((sync_existing s l).source ≡ l.source) × ((sync_existing s l).target ≡ l.target)
unfolding sync_existing
sync_existing-ends s l = by_flags (bool_same l.is_active (new_active s)) (new_active s)
  where
    by_flags :
        (same active : Bool)
        → ((if same
              then record l { satcom_object = some s.reference }
              else activate active (record l { satcom_object = some s.reference })).source
            ≡ l.source)
          × ((if same
                then record l { satcom_object = some s.reference }
                else activate active (record l { satcom_object = some s.reference })).target
              ≡ l.target)
    by_flags true active = (refl, refl)
    by_flags false true = (refl, refl)
    by_flags false false = (refl, refl)

module _ (physics : Physics) (settings : Settings) where
  created-ends :
      (from to : End) (s : SatLink) (l : Link)
      → create_link_from_satcom_link physics settings from to s ≡ ok l
      → (find_node settings from.uniq_id ≡ ok l.source)
        × (find_node settings to.uniq_id ≡ ok l.target)
  unfolding create_link_from_satcom_link new_link update_link_capacities
  created-ends from to s l e =
      let (a, found, rest) = >>=-eq-ok (find_node settings from.uniq_id) _ e in
      let (b, found', rest') = >>=-eq-ok (find_node settings to.uniq_id) _ rest in
      let (distance, measured, done) = >>=-eq-ok (physics.distance_between a b) _ rest' in
      let made : _ ≡ l = ok-injective done in
      (
        found ∙ ap ok (ap (λ (m : Link). m.source) made),
        found' ∙ ap ok (ap (λ (m : Link). m.target) made),
      )

  module _ (mark : Bool) where
    put-KeysAgree :
        (k : Key) (l : Link) (d : Dict Key Link)
        → build_link_key l.source l.target ≡ ok k
        → KeysAgree d
        → KeysAgree (put k l d)
    put-KeysAgree k l d named agree j m e = elim (Bool-cases (k == j)) [
      | inr other ↦ agree j m (sym (get-put k j l d ∙ rw other refl) ∙ e)
      | inl same ↦
          let new : l ≡ m = some-injective (sym (get-put k j l d ∙ rw same refl) ∙ e) in
          subst (λ (n : Link). build_link_key n.source n.target ≡ ok j) new
            (named ∙ ap ok ((==_iff k j).0 same))
    ]

    add_created-KeysAgree :
        (v : Valid) (s : SatLink) (r : Result Link) (p : Pass)
        → ((l : Link) → r ≡ ok l → build_link_key l.source l.target ≡ ok v.key)
        → KeysAgree p.links
        → KeysAgree (add_created physics settings mark v.key r p).links
    add_created-KeysAgree v s (raise x) p named agree = agree
    add_created-KeysAgree v s (ok l) p named agree = elim (Bool-cases (mark && l.is_active)) [
      | inl y ↦
          rw (add_created, y)
            (put-KeysAgree v.key (record l { to_add = true }) p.links (named l refl) agree)
      | inr n ↦ rw (add_created, n) (put-KeysAgree v.key l p.links (named l refl) agree)
    ]

    sync_valid-KeysAgree :
        (o : Option Valid) (s : SatLink) (p : Pass)
        → ((v : Valid) → o ≡ some v → build_link_key v.from v.to ≡ ok v.key)
        → IsNamed settings o
        → KeysAgree p.links
        → KeysAgree (sync_valid physics settings mark o s p).links
    sync_valid-KeysAgree none s p keyed named agree = agree
    sync_valid-KeysAgree (some v) s p keyed named agree = elim (Option-cases (get v.key p.links)) [
      | inl missing ↦
          rw (sync_key, missing)
            (add_created-KeysAgree v s _ _
              (λ l made.
                let (source, target) = created-ends v.from v.to s l made in
                build_link_key-SameEnd l.source l.target v.from v.to (named.0 l.source source)
                  (named.1 l.target target)
                ∙ keyed v refl)
              agree)
      | inr (l, found) ↦
          let ends : ((sync_existing s l).source ≡ l.source)
              × ((sync_existing s l).target ≡ l.target) =
            sync_existing-ends s l in
          rw (sync_key, found)
            (put-KeysAgree v.key (sync_existing s l) p.links
              (ap (λ a. build_link_key a (sync_existing s l).target) ends.0
                ∙ ap (λ b. build_link_key l.source b) ends.1
                ∙ agree v.key l found)
              agree)
    ]

    -- The links of the loop are under the keys of their ends.
    sync_each-KeysAgree :
        (ss : List SatLink) (p : Pass)
        → AllNamed settings ss
        → KeysAgree p.links
        → KeysAgree (sync_each physics settings mark ss p).links
    unfolding sync_each
    sync_each-KeysAgree [] p named agree = agree
    sync_each-KeysAgree (s ∷ ss) p named agree =
        sync_each-KeysAgree ss (sync_one physics settings mark s p) named.1
          (sync_valid-KeysAgree (valid_link s) s p (λ v e. valid_link-key s v e) named.0 agree)

    -- Where a link of the answer comes from.
    from_loop :
        (ss : List SatLink) (d : Dict Key Link) (k : Key) (m : Link)
        → get k (sync_links physics settings mark ss d).0 ≡ some m
        → (l : Link) × (n : Link) × (get k
              (sync_each physics settings mark ss
                (record { links = d; current_keys = []; distance_refresh = [] })).links
            ≡ some l)
          × SameFlags l n
          × ((if mem k (simulated_keys ss) then n else record n { to_remove = true }) ≡ m)
    unfolding sync_links
    from_loop ss d k m e =
        let start : Pass = record { links = d; current_keys = []; distance_refresh = [] } in
        let p : Pass = sync_each physics settings mark ss start in
        let refreshed : Dict Key Link = refresh_link_distances physics p.distance_refresh p.links in
        let at_end : marked (mem k (simulated_keys ss)) (get k refreshed) ≡ some m =
          ap (λ ks. marked (mem k ks) (get k refreshed))
            (sym (sync_each-current physics settings mark ss start))
          ∙ sym (get-mark_absent p.current_keys k refreshed)
          ∙ e in
        elim (Option-cases (get k p.links)) [
          | inl missing ↦ absurd (
              let gone : none ≡ some m =
                sym (
                  ap (λ o. marked (mem k (simulated_keys ss)) o)
                    (get-refresh_link_distances-none physics p.distance_refresh k p.links missing))
                ∙ at_end in
              cc)
          | inr (l, found) ↦
              let (n, kept, same) =
                get-refresh_link_distances physics p.distance_refresh k p.links l found in
              (
                l,
                n,
                found,
                same,
                some-injective (sym (ap (λ o. marked (mem k (simulated_keys ss)) o) kept) ∙ at_end),
              )
        ]

    pub sync_links-KeysAgree :
        (ss : List SatLink) (d : Dict Key Link)
        → AllNamed settings ss
        → KeysAgree d
        → KeysAgree (sync_links physics settings mark ss d).0
    sync_links-KeysAgree ss d named agree k m e =
        let start : Pass = record { links = d; current_keys = []; distance_refresh = [] } in
        let (l, n, found, same, end) = from_loop ss d k m e in
        let named_l : build_link_key l.source l.target ≡ ok k =
          sync_each-KeysAgree ss start named agree k l found in
        let named_n : build_link_key n.source n.target ≡ ok k =
          ap (λ a. build_link_key a n.target) same.source_eq
          ∙ ap (λ b. build_link_key l.source b) same.target_eq
          ∙ named_l in
        subst (λ (o : Link). build_link_key o.source o.target ≡ ok k) end
          (elim (mem k (simulated_keys ss))
            as (λ b.
              build_link_key (if b then n else record n { to_remove = true }).source
                (if b then n else record n { to_remove = true }).target
              ≡ ok k) [ true ↦ named_n | false ↦ named_n ])

    pub sync_links-remove :
        (ss : List SatLink) (d : Dict Key Link) (k : Key) (l : Link)
        → AllDistinct (keys d)
        → get k (sync_links physics settings mark ss d).0 ≡ some l
        → mem k (sync_links physics settings mark ss d).1.links_to_remove ≡ l.to_remove
    sync_links-remove ss d k l distinct found =
        changes_eq physics settings mark k ss d
        ∙ mem-keys_where in_remove k _ (sync_links-AllDistinct physics settings mark ss d distinct)
        ∙ ap (λ o. on_link in_remove o) found

    pub sync_links-present :
        (ss : List SatLink) (d : Dict Key Link) (k : Key) (l : Link)
        → get k (sync_links physics settings mark ss d).0 ≡ some l
        → l.to_remove ≡ false
        → mem k (simulated_keys ss) ≡ true
    sync_links-present ss d k l found held =
        let (l', n, found', same, end) = from_loop ss d k l found in
        elim (Bool-cases (mem k (simulated_keys ss))) [
          | inl y ↦ y
          | inr gone ↦ absurd (
              let flag : true ≡ false =
                ap (λ b. (if b then n else record n { to_remove = true }).to_remove) (sym gone)
                ∙ ap (λ (o : Link). o.to_remove) end
                ∙ held in
              cc)
        ]
