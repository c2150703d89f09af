-- ===== src/Links/Update/Outcome.antt =====
-- What one step of the topology leaves of the links (services/mixins/topology_sync.py).
use satgonetem.Base.{
  ◌≡◌, refl, sym, ap, ◌∙◌, Bool, ◌&&◌, Bool-cases, inl, inr, true, false, Option, none, some,
  Exception, List, [], text_eq, pair_eq, list_eq, nat_eq, if◌then◌else◌, ok, raise, ◌>>=◌, Dict,
  get, mem, keys, AllDistinct,
}
use satgonetem.Links.{Key, Link, Physics}
use satgonetem.Links.Keys.{KeysAgree}
use satgonetem.Links.Sync.{SatLink, Settings, sync_links, simulated_keys, Changes}
use satgonetem.Links.Sync.Agree.{
  AllNamed, sync_links-KeysAgree, sync_links-remove, sync_links-present,
}
use satgonetem.Links.Operations.{World, Surroundings, bulk_link_operations, update_routing}
use satgonetem.Links.Operations.Cleanup.{SameLinks, SameLinks-trans, KeysAgree-SameLinks}
use satgonetem.Links.Update.{
  perform_local_link_operations, apply_changes, any_change, update_routing_after_link_changes,
  update_simulation, Ending, completed, interrupted, sync_interfaces_and_links,
}
use satgonetem.Links.Update.Keeps.{Left, perform_local_lem, bulk-KeepsLinks}

abbrev pub world_of : Ending → World
world_of (completed w) = w
world_of (interrupted w x) = w

-- The step ends with the exception of the daemon, if there is one.
abbrev pub EndsBy : Option Exception → Ending → Type 0
EndsBy failure (completed w) = failure ≡ none
EndsBy failure (interrupted w x) = failure ≡ some x

module _ (around : Surroundings) where
  -- The end of a step, from the world before the routing is changed.
  abbrev routed : Bool → Changes → World → Ending
  routed calls c u = sync_interfaces_and_links around (
      if any_change around c
      then update_routing_after_link_changes around calls c.links_to_add u
      else (u, ok tt))

  -- What the routing daemon answers to the new links, where it is called.
  abbrev pub daemon_failure : Bool → Changes → Option Exception
  daemon_failure calls c =
      if calls && any_change around c then around.failure (update_routing c.links_to_add) else none

  abbrev pub IsDue : Bool → Changes → Ending → Type 0
  IsDue calls c = EndsBy (daemon_failure calls c)

  answered :
      (o : Option Exception) (u w : World)
      → w.links ≡ u.links
      → let e = sync_interfaces_and_links around (w, elim o [ none ↦ ok tt | some x ↦ raise x ]) in
        ((world_of e).links ≡ u.links) × EndsBy o e
  answered none u w same = (same, refl)
  answered (some x) u w same = (same, refl)

  routed-IsDue :
      (calls : Bool) (c : Changes) (u : World)
      → ((world_of (routed calls c u)).links ≡ u.links) × IsDue calls c (routed calls c u)
  routed-IsDue false c u = elim (Bool-cases (any_change around c)) [
    | inl y ↦ rw y (refl, refl)
    | inr n ↦ rw n (refl, refl)
  ]
  routed-IsDue true c u = elim (Bool-cases (any_change around c)) [
    | inr n ↦ rw n (refl, refl)
    | inl y ↦ rw y (answered (around.failure (update_routing c.links_to_add)) u _ refl)
  ]

  -- Every link stands under the key of its ends. Then the deletions, additions and updates of a
  -- step raise nothing. If the routing daemon is called, since there is a change, and raises, then
  -- the step ends with its exception, and otherwise it comes to its end. Either way no link is left
  -- whose key is in the list of links to remove, and every link that is left was there before, with
  -- the same ends, activity and mark for removal.
  pub apply_changes_lem :
      (calls : Bool) (c : Changes) (w : World)
      → KeysAgree w.links
      → (e : Ending) × (apply_changes around calls c w ≡ ok e)
        × IsDue calls c e
        × Left c.links_to_remove w (world_of e)
  unfolding apply_changes
  apply_changes_lem calls c w agree =
      let deleted : World = bulk_link_operations around [] [] c.links_to_remove w in
      let w_d : SameLinks w.links deleted.links =
        bulk-KeepsLinks around [] [] c.links_to_remove w in
      let (v, done_v, left_v) =
        perform_local_lem around [] [] c.links_to_remove deleted
          (KeysAgree-SameLinks w.links deleted.links w_d agree) in
      let linked : World = bulk_link_operations around c.links_to_add c.links_to_update [] v in
      let v_l : SameLinks v.links linked.links =
        bulk-KeepsLinks around c.links_to_add c.links_to_update [] v in
      let d_v : SameLinks deleted.links v.links = λ k m e. (left_v k m e).1 in
      let w_l : SameLinks w.links linked.links =
        SameLinks-trans w.links v.links linked.links
          (SameLinks-trans w.links deleted.links v.links w_d d_v) v_l in
      let (u, done_u, left_u) =
        perform_local_lem around c.links_to_add c.links_to_update [] linked
          (KeysAgree-SameLinks w.links linked.links w_l agree) in
      let (links, due) = routed-IsDue calls c u in
      (
        routed calls c u,
        ap
              (λ r. r >>= λ v.
                perform_local_link_operations around c.links_to_add c.links_to_update []
                  (bulk_link_operations around c.links_to_add c.links_to_update [] v)
                >>= λ u. ok (routed calls c u))
              done_v
            ∙ ap (λ r. r >>= λ u. ok (routed calls c u)) done_u,
        due,
        λ k m e.
            let e_u : get k u.links ≡ some m = sym (ap (λ d. get k d) links) ∙ e in
            let (none_removed, (l, found, kept)) = left_u k m e_u in
            let (n, found_v, kept_v) = v_l k l found in
            (
              (left_v k n found_v).0,
              SameLinks-trans w.links linked.links u.links w_l (λ j o f. (left_u j o f).1) k m e_u,
            ),
      )

  -- Every link stands under the key of its ends, no key stands twice, and a node that the manager
  -- finds for an end of a link of the simulation has the kind and the identifier of this end. Then,
  -- whatever the launcher, the hardware manager and the containers answer, a step of the topology
  -- comes to its end, unless the routing daemon is called, since there is a change, and raises,
  -- whose exception then ends it. Either way every link that is left is one of the simulation and
  -- is not to be removed.
  pub update_simulation_lem :
      (physics : Physics) (settings : Settings) (mark calls : Bool) (ss : List SatLink) (w : World)
      → AllDistinct (keys w.links)
      → KeysAgree w.links
      → AllNamed settings ss
      → (e : Ending) × (update_simulation around physics settings mark calls ss w ≡ ok e)
        × IsDue calls (sync_links physics settings mark ss w.links).1 e
        × ((k : Key) (m : Link)
            → get k (world_of e).links ≡ some m
            → (mem k (simulated_keys ss) ≡ true) × (m.to_remove ≡ false))
  unfolding update_simulation
  update_simulation_lem physics settings mark calls ss w distinct agree named =
      let synced : Dict Key Link = (sync_links physics settings mark ss w.links).0 in
      let c : Changes = (sync_links physics settings mark ss w.links).1 in
      let start : World = record w { links = synced } in
      let (e, done, due, left) =
        apply_changes_lem calls c start
          (sync_links-KeysAgree physics settings mark ss w.links named agree) in
      (
        e,
        done,
        due,
        λ k m at_end.
            let (kept, (l, found, s)) = left k m at_end in
            let flag : l.to_remove ≡ false =
              sym (sync_links-remove physics settings mark ss w.links k l distinct found) ∙ kept in
            (
              sync_links-present physics settings mark ss w.links k l found flag,
              s.remove_eq ∙ flag,
            ),
      )
