-- ===== src/Links/Operations/Cleanup.antt =====
-- What the link operations keep of the dictionary of links (services/mixins/link_ops.py).
use satgonetem.Base.{
  ℕ, ◌≡◌, refl, sym, ap, ◌∙◌, subst, Bool, ◌||◌, Bool-cases, inl, inr, Option, none, some,
  Option-cases, Exception, List, [], ◌∷◌, ◌++◌, ◌==◌, ==_iff, text_eq, pair_eq, list_eq, nat_eq,
  if◌then◌else◌, Result, ok, ok-injective, decimal, raise, Result-cases, ◌>>=◌, Dict, get, pop,
  get-pop, mem, filter, arith,
}
use satgonetem.Links.{Key, Link, build_link_key}
use satgonetem.Links.Keys.{KeysAgree}
use satgonetem.Links.Sync.{modify}
use satgonetem.Links.Sync.Lists.{get-modify}
use satgonetem.Links.Operations.{
  Action, World, Surroundings, in_trace, for_each, execute_link_delete, delete_calls, unless_failed,
  delete_effect, remove_link_interfaces, remove_interface_connected_to_node, is_other, kept, bump,
  at_node, without, find_peer, cleanup_one, cleanup_removed_links,
}

-- What no operation changes of a link.
pub record SameLink (l m : Link) : Type 0 where
  pub source_eq : m.source ≡ l.source
  pub target_eq : m.target ≡ l.target
  pub active_eq : m.is_active ≡ l.is_active
  pub remove_eq : m.to_remove ≡ l.to_remove

-- The links of one dictionary are those of another.
abbrev pub SameLinks : Dict Key Link → Dict Key Link → Type 0
SameLinks d c =
    (k : Key) (m : Link) → get k c ≡ some m → (l : Link) × (get k d ≡ some l) × SameLink l m

SameLink-refl : (l : Link) → SameLink l l
SameLink-refl l = record { source_eq = refl; target_eq = refl; active_eq = refl; remove_eq = refl }

SameLink-trans : {l m n : Link} → SameLink l m → SameLink m n → SameLink l n
SameLink-trans a b = record {
  source_eq = b.source_eq ∙ a.source_eq;
  target_eq = b.target_eq ∙ a.target_eq;
  active_eq = b.active_eq ∙ a.active_eq;
  remove_eq = b.remove_eq ∙ a.remove_eq;
}

pub SameLinks-refl : (d : Dict Key Link) → SameLinks d d
SameLinks-refl d k m e = (m, e, SameLink-refl m)

pub SameLinks-trans : (d c b : Dict Key Link) → SameLinks d c → SameLinks c b → SameLinks d b
SameLinks-trans d c b f g k n e =
    let (m, e', s) = g k n e in let (l, e'', t) = f k m e' in (l, e'', SameLink-trans t s)

pub SameLinks-modify :
    (k : Key) (f : Link → Link) (d : Dict Key Link)
    → ((l : Link) → SameLink l (f l))
    → SameLinks d (modify k f d)
SameLinks-modify k f d keeps j m e = elim (Bool-cases (k == j)) [
  | inr other ↦ (m, sym (get-modify k j f d ∙ rw other refl) ∙ e, SameLink-refl m)
  | inl same ↦ elim (Option-cases (get j d)) [
    | inl missing ↦
        absurd
          (let e' : none ≡ some m = sym (get-modify k j f d ∙ rw (same, missing) refl) ∙ e in cc)
    | inr (l, found) ↦
        let e' : some (f l) ≡ some m = sym (get-modify k j f d ∙ rw (same, found) refl) ∙ e in
        let e'' : f l ≡ m = cc in (l, found, subst (λ n. SameLink l n) e'' (keeps l))
  ]
]

pub KeysAgree-SameLinks : (d c : Dict Key Link) → SameLinks d c → KeysAgree d → KeysAgree c
KeysAgree-SameLinks d c same agree k m e =
    let (l, found, s) = same k m e in
    ap (λ a. build_link_key a m.target) s.source_eq
    ∙ ap (λ a. build_link_key l.source a) s.target_eq
    ∙ agree k l found

-- An operation on worlds that keeps the links.
abbrev pub KeepsLinks : (World → World) → Type 0
KeepsLinks f = (w : World) → SameLinks w.links (f w).links

pub for_each-KeepsLinks :
    (f : Key → World → World) (ks : List Key)
    → ((k : Key) → KeepsLinks (f k))
    → KeepsLinks (for_each f ks)
for_each-KeepsLinks f [] keeps w = SameLinks-refl w.links
for_each-KeepsLinks f (k ∷ ks) keeps w =
    SameLinks-trans w.links (f k w).links (for_each f ks (f k w)).links (keeps k w)
      (for_each-KeepsLinks f ks keeps (f k w))

unless_failed-KeepsLinks : (r : Option Exception) (k : Key) → KeepsLinks (unless_failed r k)
unless_failed-KeepsLinks none k w =
    SameLinks-modify k _ w.links
      (λ l. record { source_eq = refl; target_eq = refl; active_eq = refl; remove_eq = refl })
unless_failed-KeepsLinks (some x) k w = SameLinks-refl w.links

module _ (around : Surroundings) where
  delete_effect-KeepsLinks :
      (actions : List Action) (k : Key) → KeepsLinks (delete_effect around actions k)
  delete_effect-KeepsLinks [] k w = SameLinks-refl w.links
  delete_effect-KeepsLinks (a ∷ actions) k w = unless_failed-KeepsLinks (around.failure a) k w

  pub execute_link_delete-KeepsLinks : (k : Key) → KeepsLinks (execute_link_delete around k)
  unfolding execute_link_delete
  execute_link_delete-KeepsLinks k w =
      delete_effect-KeepsLinks (delete_calls around k) k (in_trace (delete_calls around k) w)

-- The removal of interfaces does not touch the links.
remove_interface-links :
    (self peer : ℕ) (w v : World)
    → remove_interface_connected_to_node self peer w ≡ ok v
    → v.links ≡ w.links
unfolding remove_interface_connected_to_node
remove_interface-links self peer w v e =
    by_found
      (find_peer w.heap ((w.nodes peer).name ++ b'.' ∷ decimal (w.nodes self).id)
        (w.nodes self).interfaces)
      e
  where
    by_found :
        (r : Result (Option ℕ))
        → (r >>= λ found.
            ok (at_node self (λ n. record n { interfaces = without w.heap found n.interfaces }) w))
          ≡ ok v
        → v.links ≡ w.links
    by_found (ok found) done = sym (ap (λ (u : World). u.links) (ok-injective done))
    by_found (raise x) done = absurd cc

kept-bump-links :
    (v : World) (r : Result World)
    → ((u : World) → r ≡ ok u → u.links ≡ v.links)
    → (kept v (bump r)).links ≡ v.links
kept-bump-links v (ok u) same = same u refl
kept-bump-links v (raise x) same = refl

pub remove_link_interfaces-links :
    (k : Key) (w : World) → (remove_link_interfaces k w).links ≡ w.links
unfolding remove_link_interfaces
remove_link_interfaces-links k w = elim (Option-cases (get k w.links)) [
  | inl missing ↦ rw (remove_link_interfaces, missing) refl
  | inr (l, found) ↦
      let source = l.source.reference in
      let target = l.target.reference in
      elim (Result-cases (remove_interface_connected_to_node source target w)) [
        | inr (x, failed) ↦ rw (remove_link_interfaces, found, failed) refl
        | inl (v, done) ↦
            rw (remove_link_interfaces, found, done)
              (kept-bump-links v (remove_interface_connected_to_node target source v)
                  (λ u e. remove_interface-links target source v u e)
                ∙ remove_interface-links source target w v done)
      ]
]

cleanup_one_lem :
    (k : Key) (w : World)
    → KeysAgree w.links
    → (u : World) × (cleanup_one k w ≡ ok u)
      × ((j : Key) → get j u.links ≡ (if k == j then none else get j w.links))
      × (u.trace ≡ w.trace)
unfolding cleanup_one
cleanup_one_lem k w agree = elim (Option-cases (get k w.links)) [
  | inl missing ↦ (w, rw (cleanup_one, missing) refl, (λ j. absent j missing), refl)
  | inr (l, found) ↦
      let u : World = record w {
        interfaces = filter (is_other w.heap l.peer_interfaces) w.interfaces;
        links = pop k w.links;
      } in
      (u, rw (cleanup_one, found, agree k l found) refl, (λ j. get-pop k j w.links), refl)
]
  where
    absent :
        (j : Key) → get k w.links ≡ none → get j w.links ≡ (if k == j then none else get j w.links)
    absent j missing = elim (Bool-cases (k == j)) [
      | inl same ↦ rw same (subst (λ i. get i w.links ≡ none) ((==_iff k j).0 same) missing)
      | inr other ↦ rw other refl
    ]

if-or {ℓ} :
    {A : Type ℓ} (a b : Bool) (x y : A)
    → (if b then x else (if a then x else y)) ≡ (if a || b then x else y)
if-or a b x y = ground arith

-- Where every link stands under the key of its ends, the clean-up raises nothing, asks nothing of
-- the other parts, removes the links whose keys are in the list, and keeps the others.
pub cleanup_removed_links_lem :
    (ks : List Key) (w : World)
    → KeysAgree w.links
    → (v : World) × (cleanup_removed_links ks w ≡ ok v)
      × ((j : Key) → get j v.links ≡ (if mem j ks then none else get j w.links))
      × (v.trace ≡ w.trace)
unfolding cleanup_removed_links
cleanup_removed_links_lem [] w agree = (w, refl, (λ k. refl), refl)
cleanup_removed_links_lem (k ∷ ks) w agree =
    let (u, one, popped, trace) = cleanup_one_lem k w agree in
    let (v, rest, links, trace') = cleanup_removed_links_lem ks u (still u popped) in
    (
      v,
      ap (λ r. r >>= cleanup_removed_links ks) one ∙ rest,
      (λ j.
          links j
          ∙ ap (λ o. if mem j ks then none else o) (popped j)
          ∙ if-or (k == j) (mem j ks) none (get j w.links)),
      trace' ∙ trace,
    )
  where
    still :
        (u : World)
        → ((j : Key) → get j u.links ≡ (if k == j then none else get j w.links))
        → KeysAgree u.links
    still u popped j l e = elim (Bool-cases (k == j)) [
      | inl same ↦ absurd (let e' : none ≡ some l = sym (popped j ∙ rw same refl) ∙ e in cc)
      | inr other ↦ agree j l (sym (popped j ∙ rw other refl) ∙ e)
    ]
