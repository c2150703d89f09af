-- ===== src/Links/Update.antt =====
-- One step of the topology (`update_simulation` in services/mixins/topology_sync.py) and the local
-- operations it makes (services/mixins/link_ops.py, services/mixins/interface_mgr.py).
pub mod Keeps
pub mod Outcome
use satgonetem.Base.{
  ℕ, ◌+◌, Bool, true, false, not, ◌&&◌, ◌||◌, Option, none, some, List, [], ◌∷◌, ◌++◌, map, Text,
  codes, decimal, ◌==◌, text_eq, pair_eq, nat_eq, list_eq, mem, nat_beq, if◌then◌else◌, Result, ok,
  raise, Exception, ◌>>=◌, Dict, get,
}
use satgonetem.Emulator.{Interface, Heap, Node, get_iname}
use satgonetem.Address.{take}
use satgonetem.Address.Assignment.{set_ips_to_nodes, is_set}
use satgonetem.Links.{End, Key, Link, Physics}
use satgonetem.Links.Sync.{modify, sync_links, SatLink, Settings, Changes}
use satgonetem.Links.Operations.{
  Action, configure, update_routing, World, Surroundings, in_trace, at_link, for_each,
  bulk_link_operations, remove_link_interfaces, cleanup_removed_links,
}

abbrev new_interface : Text → Text → ℕ → ℕ → Bool → Interface
new_interface name type delay peer is_active = record {
  ipv4 = [];
  name = name;
  peer = some peer;
  is_monitored = false;
  is_active = is_active;
  previously_active = true;
  type = type;
  delay = delay;
  mac_address = none;
}

-- The type of the two interfaces, from the names of the nodes.
abbrev interface_type : Text → Text → Text
interface_type s t =
    let gnd = λ (n : Text). take 3 n == codes "Gnd" in
    let sat = λ (n : Text). take 3 n == codes "Sat" in
    if gnd s && gnd t
    then codes "GroundObjectLink"
    else if gnd s || gnd t
    then codes "GroundStationLink"
    else if sat s || sat t
    then codes "InterSatelliteLink"
    else []

abbrev add_interface : ℕ → ℕ → (ℕ → Node) → ℕ → Node
add_interface n i nodes = λ m.
    if nat_beq m n
    then record (nodes m) { interfaces = (nodes m).interfaces ++ i ∷ [] }
    else nodes m

-- `_build_interfaces_from_link` up to the check of the status
unfoldable pub make_interfaces : Key → Link → World → World
make_interfaces k l w =
    let source = w.nodes l.source.reference in
    let target = w.nodes l.target.reference in
    let one = w.next_interface in
    let two = one + 1 in
    let type = interface_type source.name target.name in
    let first =
      new_interface (source.name ++ b'.' ∷ decimal target.id) type l.delay two l.is_active in
    let second =
      new_interface (target.name ++ b'.' ∷ decimal source.id) type l.delay one l.is_active in
    at_link k (λ m. record m { peer_interfaces = m.peer_interfaces ++ one ∷ two ∷ [] })
      (record w {
        heap = λ i. if nat_beq i one then first else if nat_beq i two then second else w.heap i;
        nodes = add_interface l.target.reference two (add_interface l.source.reference one w.nodes);
        next_interface = two + 1;
        interfaces = w.interfaces ++ one ∷ two ∷ [];
        interface_version = w.interface_version + 1;
      })

-- How a step of the topology ends, with the world that it leaves: it comes to its end, or the
-- exception of the routing daemon ends it.
pub data Ending : Type 0 where
  completed : World → Ending
  interrupted : World → Exception → Ending

module _ (around : Surroundings) where
  -- `set_ipv4_to_containers(interface, set_lo=False)`
  unfoldable pub set_ipv4_to_containers : ℕ → ℕ → World → World × Result (Unit {0})
  set_ipv4_to_containers n i w =
      let address = (w.heap i).ipv4 in
      if is_set address
      then (elim (get_iname (w.heap i)) [
        | raise x ↦ (w, raise x)
        | ok dev ↦
            let action =
              configure n ((codes "addr add " ++ address ++ codes "/31 dev " ++ dev) ∷ []) in
            (
              in_trace (action ∷ []) w,
              elim (around.failure action) [ none ↦ ok tt | some x ↦ raise x ],
            )
      ])
      else (w, ok tt)

  abbrev pub and_then :
      World × Result (Unit {0}) → (World → World × Result (Unit {0})) → World × Result (Unit {0})
  and_then (w, ok _) next = next w
  and_then (w, raise x) next = (w, raise x)

  abbrev pub with_heap : World → Heap × Result (Unit {0}) → World × Result (Unit {0})
  with_heap w (heap, r) = (record w { heap = heap }, r)

  -- `_build_interfaces_from_link`
  unfoldable pub build_interfaces_from_link : Key → Link → World → World × Result (Unit {0})
  unfolding make_interfaces set_ipv4_to_containers
  build_interfaces_from_link k l w =
      let one = w.next_interface in
      let made = make_interfaces k l w in
      if w.status
      then and_then (with_heap made (set_ips_to_nodes made.heap (one ∷ (one + 1) ∷ []))) (λ v.
        and_then (set_ipv4_to_containers l.source.reference one v)
          (λ u. set_ipv4_to_containers l.target.reference (one + 1) u))
      else (made, ok tt)

  -- `link.to_add = False`, unless an exception came before it
  abbrev pub added : Key → World × Result (Unit {0}) → World
  added k (w, ok _) = at_link k (λ l. record l { to_add = false }) w
  added k (w, raise _) = w

  -- `_add_link_interfaces`
  unfoldable pub add_link_interfaces : Key → World → World
  add_link_interfaces k w = elim (get k w.links) [
    | none ↦ w
    | some l ↦ added k (build_interfaces_from_link k l w)
  ]

  -- `_update_link_flags`
  abbrev pub update_link_flags : Key → World → World
  update_link_flags k w = at_link k (λ l. record l { to_update = false }) w

  -- `_perform_local_link_operations`, for the lists that are processed
  unfoldable pub perform_local_link_operations :
      List Key → List Key → List Key → World → Result World
  perform_local_link_operations adds updates removes w = cleanup_removed_links removes (
      for_each add_link_interfaces adds
        (for_each update_link_flags updates (for_each remove_link_interfaces removes w)))

  -- `_sync_interfaces_and_links`
  unfoldable pub update_interfaces_state : Dict Key Link → Heap → Heap
  update_interfaces_state [] heap = heap
  update_interfaces_state ((k, l) ∷ d) heap =
      update_interfaces_state d (λ i.
        if mem i l.peer_interfaces then record (heap i) { is_active = l.is_active } else heap i)

  -- What decides whether the routing daemon is called.
  abbrev pub any_change : Changes → Bool
  any_change c = elim c.links_to_add [
    | _ ∷ _ ↦ true
    | [] ↦ elim c.links_to_update [
      | _ ∷ _ ↦ true
      | [] ↦ elim c.links_to_remove [ _ ∷ _ ↦ true | [] ↦ false ]
    ]
  ]

  -- `_update_routing_after_link_changes`, where `calls_daemon` says that the routing is
  -- initialised, has a daemon, and that its method is known. The daemon may raise.
  abbrev pub update_routing_after_link_changes : Bool → List Key → World → World × Result (Unit {0})
  update_routing_after_link_changes false new_links w = (w, ok tt)
  update_routing_after_link_changes true new_links w = (
    in_trace (update_routing new_links ∷ []) w,
    elim (around.failure (update_routing new_links)) [ none ↦ ok tt | some x ↦ raise x ],
  )

  abbrev pub sync_interfaces_and_links : World × Result (Unit {0}) → Ending
  sync_interfaces_and_links (w, raise x) = interrupted w x
  sync_interfaces_and_links (w, ok _) =
      completed (record w { heap = update_interfaces_state w.links w.heap })

  -- What follows `_sync_links`: deletions first, then additions and updates, and then the routing,
  -- whose exception leaves the state of the interfaces as it is.
  unfoldable pub apply_changes : Bool → Changes → World → Result Ending
  unfolding perform_local_link_operations update_interfaces_state
  apply_changes calls_daemon c w = do
    let deleted = bulk_link_operations around [] [] c.links_to_remove w
    v ← perform_local_link_operations [] [] c.links_to_remove deleted
    let linked = bulk_link_operations around c.links_to_add c.links_to_update [] v
    u ← perform_local_link_operations c.links_to_add c.links_to_update [] linked
    ok (
        sync_interfaces_and_links (
          if any_change c
          then update_routing_after_link_changes calls_daemon c.links_to_add u
          else (u, ok tt)))

  -- `update_simulation`, from the answer of the simulation on
  unfoldable pub update_simulation :
      Physics → Settings → Bool → Bool → List SatLink → World → Result Ending
  unfolding apply_changes
  update_simulation physics settings mark calls_daemon data_links w =
      let synced = sync_links physics settings mark data_links w.links in
      apply_changes calls_daemon synced.1 (record w { links = synced.0 })
