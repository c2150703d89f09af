-- ===== src/Links/Update/Keeps.antt =====
-- The links through the operations of one step (services/mixins/link_ops.py).
use satgonetem.Base.{
  ℕ, ◌+◌, ◌≡◌, refl, sym, ◌∙◌, subst, Bool, true, false, Bool-cases, inl, inr, none, some,
  Option-cases, List, [], ◌∷◌, text_eq, pair_eq, list_eq, nat_eq, if◌then◌else◌, Result, ok, raise,
  Result-cases, Dict, get, mem,
}
use satgonetem.Emulator.{get_iname}
use satgonetem.Address.Assignment.{is_set, set_ips_to_nodes}
use satgonetem.Links.{Key, Link}
use satgonetem.Links.Keys.{KeysAgree}
use satgonetem.Links.Operations.{
  World, Surroundings, Task, delete_task, update_task, add_task, execute_task, execute_tasks,
  submitted, for_each, execute_link_delete, execute_link_update, execute_link_add,
  bulk_link_operations, remove_link_interfaces,
}
use satgonetem.Links.Operations.Cleanup.{
  SameLink, SameLinks, SameLinks-refl, SameLinks-trans, SameLinks-modify, KeysAgree-SameLinks,
  KeepsLinks, for_each-KeepsLinks, execute_link_delete-KeepsLinks, remove_link_interfaces-links,
  cleanup_removed_links_lem,
}
use satgonetem.Links.Update.{
  make_interfaces, set_ipv4_to_containers, and_then, with_heap, build_interfaces_from_link, added,
  add_link_interfaces, update_link_flags, perform_local_link_operations,
}

same :
    {l m : Link}
    → m.source ≡ l.source
    → m.target ≡ l.target
    → m.is_active ≡ l.is_active
    → m.to_remove ≡ l.to_remove
    → SameLink l m
same a b c d = record { source_eq = a; target_eq = b; active_eq = c; remove_eq = d }

equal-SameLinks : (d c : Dict Key Link) → c ≡ d → SameLinks d c
equal-SameLinks d c e = subst (λ x. SameLinks d x) (sym e) (SameLinks-refl d)

if-either {ℓ κ} :
    {A : Type ℓ} (P : A → Type κ) (b : Bool) (x y : A) → P x → P y → P (if b then x else y)
if-either P true x y p q = p
if-either P false x y p q = q

make_interfaces-links :
    (k : Key) (l : Link) (w : World) → SameLinks w.links (make_interfaces k l w).links
unfolding make_interfaces
make_interfaces-links k l w = SameLinks-modify k _ w.links (λ m. same refl refl refl refl)

-- What is left after some operations of the links of a dictionary.
abbrev pub Left : List Key → World → World → Type 0
Left removes w v =
    (k : Key) (m : Link)
    → get k v.links ≡ some m
    → (mem k removes ≡ false) × ((l : Link) × (get k w.links ≡ some l) × SameLink l m)

module _ (around : Surroundings) where
  set_ipv4_to_containers-links :
      (n i : ℕ) (w : World) → (set_ipv4_to_containers around n i w).0.links ≡ w.links
  unfolding set_ipv4_to_containers
  set_ipv4_to_containers-links n i w = elim (Bool-cases (is_set (w.heap i).ipv4)) [
    | inr unset ↦ rw (set_ipv4_to_containers, unset) refl
    | inl full ↦ elim (Result-cases (get_iname (w.heap i))) [
      | inl (dev, e) ↦ rw (set_ipv4_to_containers, full, e) refl
      | inr (x, e) ↦ rw (set_ipv4_to_containers, full, e) refl
    ]
  ]

  and_then-links :
      (r : World × Result (Unit {0})) (next : World → World × Result (Unit {0}))
      → ((w : World) → (next w).0.links ≡ w.links)
      → (and_then around r next).0.links ≡ r.0.links
  and_then-links (w, ok _) next keeps = keeps w
  and_then-links (w, raise x) next keeps = refl

  build_interfaces_from_link-links :
      (k : Key) (l : Link) (w : World)
      → SameLinks w.links (build_interfaces_from_link around k l w).0.links
  unfolding build_interfaces_from_link
  build_interfaces_from_link-links k l w =
      let made : World = make_interfaces k l w in
      let one : ℕ = w.next_interface in
      let r : World × Result (Unit {0}) =
        with_heap around made (set_ips_to_nodes made.heap (one ∷ (one + 1) ∷ [])) in
      let second : World → World × Result (Unit {0}) =
        λ u. set_ipv4_to_containers around l.target.reference (one + 1) u in
      let both : World → World × Result (Unit {0}) =
        λ v. and_then around (set_ipv4_to_containers around l.source.reference one v) second in
      let both_keep : (v : World) → (both v).0.links ≡ v.links = λ v.
        and_then-links (set_ipv4_to_containers around l.source.reference one v) second
          (λ u. set_ipv4_to_containers-links l.target.reference (one + 1) u)
        ∙ set_ipv4_to_containers-links l.source.reference one v in
      if-either (λ (x : World × Result (Unit {0})). SameLinks w.links x.0.links) w.status
        (and_then around r both) (made, ok tt)
        (SameLinks-trans w.links made.links (and_then around r both).0.links
          (make_interfaces-links k l w)
          (equal-SameLinks made.links (and_then around r both).0.links
            (and_then-links r both both_keep)))
        (make_interfaces-links k l w)

  add_link_interfaces-KeepsLinks : (k : Key) → KeepsLinks (add_link_interfaces around k)
  unfolding add_link_interfaces
  add_link_interfaces-KeepsLinks k w = elim (Option-cases (get k w.links)) [
    | inl missing ↦ rw (add_link_interfaces, missing) (SameLinks-refl w.links)
    | inr (l, found) ↦
        rw (add_link_interfaces, found)
          (after_added (build_interfaces_from_link around k l w)
            (build_interfaces_from_link-links k l w))
  ]
    where
      after_added :
          (r : World × Result (Unit {0}))
          → SameLinks w.links r.0.links
          → SameLinks w.links (added around k r).links
      after_added (v, ok _) h =
          SameLinks-trans w.links v.links _ h
            (SameLinks-modify k _ v.links (λ l. same refl refl refl refl))
      after_added (v, raise x) h = h

  update_link_flags-KeepsLinks : (k : Key) → KeepsLinks (update_link_flags around k)
  update_link_flags-KeepsLinks k w = SameLinks-modify k _ w.links (λ l. same refl refl refl refl)

  pub perform_local_lem :
      (adds updates removes : List Key) (w : World)
      → KeysAgree w.links
      → (v : World) × (perform_local_link_operations around adds updates removes w ≡ ok v)
        × Left removes w v
  unfolding perform_local_link_operations
  perform_local_lem adds updates removes w agree =
      let a : World = for_each remove_link_interfaces removes w in
      let b : World = for_each (update_link_flags around) updates a in
      let c : World = for_each (add_link_interfaces around) adds b in
      let w_a : SameLinks w.links a.links =
        for_each-KeepsLinks remove_link_interfaces removes
          (λ k w. equal-SameLinks w.links _ (remove_link_interfaces-links k w)) w in
      let a_b : SameLinks a.links b.links =
        for_each-KeepsLinks (update_link_flags around) updates update_link_flags-KeepsLinks a in
      let b_c : SameLinks b.links c.links =
        for_each-KeepsLinks (add_link_interfaces around) adds add_link_interfaces-KeepsLinks b in
      let w_c : SameLinks w.links c.links =
        SameLinks-trans w.links b.links c.links (SameLinks-trans w.links a.links b.links w_a a_b)
          b_c in
      let (v, done, links, trace) =
        cleanup_removed_links_lem removes c (KeysAgree-SameLinks w.links c.links w_c agree) in
      (v, done, λ k m e. from_cleanup c k m (mem k removes) refl (sym (links k) ∙ e) w_c)
    where
      from_cleanup :
          (c : World) (k : Key) (m : Link) (gone : Bool)
          → mem k removes ≡ gone
          → (if gone then none else get k c.links) ≡ some m
          → SameLinks w.links c.links
          → (mem k removes ≡ false) × ((l : Link) × (get k w.links ≡ some l) × SameLink l m)
      from_cleanup c k m true g e h = absurd cc
      from_cleanup c k m false g e h = (g, h k m e)

  execute_task-KeepsLinks : (t : Task) → KeepsLinks (execute_task around t)
  unfolding execute_link_delete execute_link_update execute_link_add
  execute_task-KeepsLinks (delete_task k) w = execute_link_delete-KeepsLinks around k w
  execute_task-KeepsLinks (update_task k) w = SameLinks-refl w.links
  execute_task-KeepsLinks (add_task k) w = SameLinks-refl w.links

  execute_tasks-KeepsLinks : (ts : List Task) → KeepsLinks (execute_tasks around ts)
  execute_tasks-KeepsLinks [] w = SameLinks-refl w.links
  execute_tasks-KeepsLinks (t ∷ ts) w =
      SameLinks-trans w.links (execute_task around t w).links _ (execute_task-KeepsLinks t w)
        (execute_tasks-KeepsLinks ts (execute_task around t w))

  pub bulk-KeepsLinks :
      (adds updates removes : List Key)
      → KeepsLinks (bulk_link_operations around adds updates removes)
  unfolding bulk_link_operations
  bulk-KeepsLinks adds updates removes w =
      let tasks : List Task = around.order w (submitted around adds updates removes) in
      if-either (λ (v : World). SameLinks w.links v.links) w.status (execute_tasks around tasks w) w
        (execute_tasks-KeepsLinks tasks w) (SameLinks-refl w.links)
