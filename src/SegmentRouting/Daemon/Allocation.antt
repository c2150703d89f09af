-- ===== src/SegmentRouting/Daemon/Allocation.antt =====
-- The labels that `_init_sr_mpls` gives to the nodes of the topology.
use satgonetem.Base.{
  ℕ, ◌+◌, ◌≤◌, ◌≡◌, ◌⊎◌, refl, sym, ◌∙◌, ap, subst, inl, inr, true, some, [], ◌∷◌, ◌++◌, Text, Dict,
  ok, if◌then◌else◌, Bool-cases, Option-cases, arith, nat_eq, keys, get, get-put, get-put_self, mem,
  ltb, ◌==◌, ==_refl,
}
use satgonetem.Emulator.{Node}
use satgonetem.SegmentRouting.Manager.{
  NodeSid, Manager, mpls_label_max, mpls_label_min, new_manager, new_sid, allocate_node_sid,
  get_node_sid,
}
use satgonetem.SegmentRouting.Manager.Labels.{Reachable, start, next, allocate, get_node_sid-range}
use satgonetem.SegmentRouting.Topology.{Topology}
use satgonetem.SegmentRouting.Daemon.{Daemon, allocate_all, init_sr_mpls, sr_base, daemon_node_sid}

allocate_node_sid-label :
    (m : Manager) (i : ℕ) (name : Text)
    → Reachable m
    → m.node_sid_base + i ≤ mpls_label_max
    → (sid : NodeSid) × (m' : Manager) × (allocate_node_sid m i name ≡ ok (sid, m'))
      × (m'.node_sid_base ≡ m.node_sid_base)
      × (get_node_sid m' i ≡ some (m.node_sid_base + i))
      × ((j l : ℕ) → get_node_sid m j ≡ some l → get_node_sid m' j ≡ some l)
unfolding allocate_node_sid get_node_sid
allocate_node_sid-label m i name reach small = elim (Option-cases (get i m.node_sids)) [
  | inr (sid, found) ↦
      let here : get_node_sid m i ≡ some sid.label = rw (get_node_sid, found) refl in
      let (shape, low, high) = get_node_sid-range m i sid.label reach here in
      (sid, m, rw (allocate_node_sid, found) refl, refl, here ∙ ap some shape, λ j l h. h)
  | inl gone ↦
      let made : NodeSid = (new_sid m i name).0 in
      (
        made,
        (new_sid m i name).1,
        ground arith,
        refl,
        ground (arith, get-put_self i made m.node_sids),
        λ j l h. ground (arith, get-put i j made m.node_sids, nat_eq.beq_iff i j),
      )
]

allocate_all-labels :
    (m : Manager) (nodes : Dict ℕ Node)
    → Reachable m
    → ((i : ℕ) → mem i (keys nodes) ≡ true → m.node_sid_base + i ≤ mpls_label_max)
    → ((allocate_all m nodes).0 ≡ ok tt)
      × ((i : ℕ)
          → (mem i (keys nodes) ≡ true) ⊎ (get_node_sid m i ≡ some (m.node_sid_base + i))
          → get_node_sid (allocate_all m nodes).1 i ≡ some (m.node_sid_base + i))
unfolding allocate_all
allocate_all-labels m [] reach small = (refl, λ i h. elim h [ inl y ↦ ground arith | inr l ↦ l ])
allocate_all-labels m ((i, n) ∷ nodes) reach small =
    let (sid, m', made, base, here, kept) =
      allocate_node_sid-label m i n.name reach (small i (ground (arith, ==_refl i))) in
    let (done, labels) =
      allocate_all-labels m' nodes (next reach (allocate i n.name sid made))
        (λ j h. rw base (small j (ground arith))) in
    (
      rw (allocate_all, made) done,
      λ j h.
          rw (allocate_all, made)
            (subst (λ b. get_node_sid (allocate_all m' nodes).1 j ≡ some (b + j)) base
              (labels j (elim (Bool-cases (i == j)) [
                | inl y ↦
                    let same : i ≡ j = (nat_eq.beq_iff i j).0 y in
                    inr (
                      subst (λ k. get_node_sid m' k ≡ some (m.node_sid_base + k)) same here
                      ∙ ap (λ b. some (b + j)) (sym base))
                | inr other ↦ elim h [
                  | inl y ↦ inl (ground arith)
                  | inr l ↦ inr (kept j _ l ∙ ap (λ b. some (b + j)) (sym base))
                ]
              ]))),
    )

-- Where no node's label would exceed 1048575, `_init_sr_mpls` raises nothing, and afterwards every
-- satellite and ground station has the label that is the base, at least 16, plus its identifier.
pub init_sr_mpls-labels :
    (t : Topology) (d : Daemon)
    → ((i : ℕ)
        → mem i (keys (t.satellites ++ t.ground_stations)) ≡ true
        → (if ltb (sr_base d) mpls_label_min then mpls_label_min else sr_base d) + i
          ≤ mpls_label_max)
    → ((init_sr_mpls t d).0 ≡ ok tt)
      × ((i : ℕ)
          → mem i (keys (t.satellites ++ t.ground_stations)) ≡ true
          → daemon_node_sid (init_sr_mpls t d).1 i
            ≡ some ((if ltb (sr_base d) mpls_label_min then mpls_label_min else sr_base d) + i))
unfolding init_sr_mpls daemon_node_sid new_manager
init_sr_mpls-labels t d small =
    let (done, labels) =
      allocate_all-labels (new_manager (sr_base d) 100000) (t.satellites ++ t.ground_stations)
        (start (sr_base d) 100000) small in
    (done, λ i h. labels i (inl h))
