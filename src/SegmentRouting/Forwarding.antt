-- ===== src/SegmentRouting/Forwarding.antt =====
-- A packet on its way: the stack that `_build_sr_gs_routes` gives to the source, and the entries that
-- `install_sr_forwarding` gives to the satellites (routing/srmpls_daemon.py). An entry pops its label
-- and sends the packet out of its interface, as models/mpls_entry.py says of `SRForwardEntry`. The
-- first label of a list is the top of the stack, which is how `encap mpls` of iproute2 reads the
-- labels of the command that `SRLabelStackEntry` prints.
use satgonetem.Base.{
  ℕ, subst, ◌≡◌, refl, ◌∙◌, ap, inl, inr, true, false, Option, some, List, [], ◌∷◌, Text, get, mem,
  nat_eq, ok, >>=-eq-ok, or_raise, value_error, pos, Bool-cases, Option-cases, Result-cases, arith,
  ◌==◌, ==_refl,
}
use satgonetem.Emulator.{Node}
use satgonetem.SegmentRouting.Manager.{
  Manager, NodeSid, get_node_sid, labels_of, get_label_stack_for_path,
}
use satgonetem.SegmentRouting.Manager.Labels.{Reachable, get_node_sid-get_node_for_sid}
use satgonetem.SegmentRouting.Entries.{ForwardEntry, LabelStackEntry}
use satgonetem.SegmentRouting.Topology.{Topology, peer_id}
use satgonetem.SegmentRouting.Routes.{next_hop_of, route_to}
use satgonetem.SegmentRouting.Install.{
  neighbor, entry_toward, add_forward, has_peer, entry_of, forward_entry, forward_entries,
}
use satgonetem.SegmentRouting.Install.Neighbors.{
  SomeFor, AllTo, or_raise-ok, AllTo-add, SomeFor-there, SomeFor-here, next_hop_of-same,
  interface_of, stack_tail, neighbor-some, entry_toward-some,
}

ok_inj : {a b : List ℕ} → ok a ≡ ok b → a ≡ b
ok_inj h = cc

module _ (t : Topology) (m : Manager) where
  -- The satellite `x` pops `l` and sends the packet to `y`.
  abbrev pub Forwards : ℕ → ℕ → ℕ → Type 0
  Forwards x l y =
      (n : Node) × (es : List ForwardEntry) × (get x t.satellites ≡ some n)
      × (forward_entries t m n.interfaces ≡ ok es)
      × SomeFor l es
      × AllTo t.heap l y es

  -- A packet at `x` with a label stack, the top label first, visits the nodes of a list, and then has no label left.
  pub data Follows : ℕ → List ℕ → List ℕ → Type 0 where
    arrived : (x : ℕ) → Follows x [] (x ∷ [])
    hop :
        (x l y : ℕ) {labels path : List ℕ}
        → Forwards x l y
        → Follows y labels path
        → Follows x (l ∷ labels) (x ∷ path)

  -- Each interface has a peer.
  abbrev pub AllPeered : List ℕ → Type 0
  AllPeered rs = (r : ℕ) → mem r rs ≡ true → has_peer t.heap r ≡ true

  -- Along a path, each satellite has an interface to the next node, which has an address, and its
  -- interfaces have peers.
  abbrev pub Connected : ℕ → List ℕ → Type 0
  Connected x [] = Unit
  Connected x (y ∷ path) =
      ((n : Node) × (r : ℕ) × (ip : Text) × (get x t.satellites ≡ some n)
        × AllPeered n.interfaces
        × (mem r n.interfaces ≡ true)
        × (peer_id (t.heap r) ≡ some (pos y))
        × (next_hop_of t.heap (some r) ≡ some (r, ip)))
      × Connected y path

  -- The entries of interfaces that have peers.
  unfoldable entries_of : List ℕ → List ForwardEntry
  entries_of [] = []
  entries_of (r ∷ rs) = add_forward (entry_of t m r) (entries_of rs)

  forward_entries-entries_of :
      (rs : List ℕ) → AllPeered rs → forward_entries t m rs ≡ ok (entries_of rs)
  unfolding forward_entries forward_entry entries_of
  forward_entries-entries_of [] peered = refl
  forward_entries-entries_of (r ∷ rs) peered =
      rw
        (
          peered r (ground (arith, ==_refl r)),
          forward_entries-entries_of rs (λ q h. peered q (ground arith)),
        )
        refl

  entry_of-some :
      (r : ℕ) (e : ForwardEntry)
      → entry_of t m r ≡ some e
      → (y : ℕ) × (peer_id (t.heap e.interface) ≡ some (pos y))
        × (get_node_sid m y ≡ some e.target_sid)
  unfolding entry_of
  entry_of-some r e h =
      let (ip, y, sent, near) =
        entry_toward-some t (next_hop_of t.heap (some r)) (neighbor m (peer_id (t.heap r))) e h in
      let (peer, label) = neighbor-some m (peer_id (t.heap r)) y e.target_sid near in
      (
        y,
        ap (λ i. peer_id (t.heap i)) (next_hop_of-same t.heap r e.interface ip sent) ∙ peer,
        label,
      )

  same_node :
      (y z l : ℕ) → Reachable m → get_node_sid m y ≡ some l → get_node_sid m z ≡ some l → y ≡ z
  same_node y z l reach a b =
      let to_y = (get_node_sid-get_node_for_sid m y l reach).0 a in
      let to_z = (get_node_sid-get_node_for_sid m z l reach).0 b in ground arith

  entries_of-AllTo :
      (rs : List ℕ) (y l : ℕ)
      → Reachable m
      → get_node_sid m y ≡ some l
      → AllTo t.heap l y (entries_of rs)
  unfolding entries_of
  entries_of-AllTo [] y l reach label = tt
  entries_of-AllTo (r ∷ rs) y l reach label =
      AllTo-add t.heap l y (entry_of t m r) (entries_of rs)
        (λ e made same.
          let (z, to_z, label_z) = entry_of-some r e made in
          to_z ∙ ap (λ i. some (pos i)) (same_node z y l reach (label_z ∙ ap some same) label))
        (entries_of-AllTo rs y l reach label)

  neighbor_of : (y l : ℕ) → get_node_sid m y ≡ some l → neighbor m (some (pos y)) ≡ some (y, l)
  neighbor_of y l h = ground arith

  SomeFor-toward :
      (o : Option ForwardEntry) (es : List ForwardEntry) (r : ℕ) (ip : Text) (y l : ℕ)
      → o ≡ entry_toward t (some (r, ip)) (some (y, l))
      → SomeFor l (add_forward o es)
  SomeFor-toward o es r ip y l h = SomeFor-here l o es _ h refl

  entries_of-SomeFor :
      (rs : List ℕ) (r y l : ℕ) (ip : Text)
      → mem r rs ≡ true
      → peer_id (t.heap r) ≡ some (pos y)
      → next_hop_of t.heap (some r) ≡ some (r, ip)
      → get_node_sid m y ≡ some l
      → SomeFor l (entries_of rs)
  unfolding entries_of entry_of
  entries_of-SomeFor [] r y l ip there peer address label = absurd (ground arith)
  entries_of-SomeFor (q ∷ rs) r y l ip there peer address label = elim (Bool-cases (q == r)) [
    | inl here ↦
        let same : q ≡ r = (nat_eq.beq_iff q r).0 here in
        SomeFor-toward (entry_of t m q) (entries_of rs) r ip y l (
          ap (entry_of t m) same
          ∙ ap (λ o. entry_toward t o (neighbor m (peer_id (t.heap r)))) address
          ∙ ap (entry_toward t (some (r, ip))) (ap (neighbor m) peer ∙ neighbor_of y l label))
    | inr other ↦
        SomeFor-there l (entry_of t m q) (entries_of rs)
          (entries_of-SomeFor rs r y l ip (ground arith) peer address label)
  ]

  label_of :
      (y : ℕ) (sid : NodeSid) → get y m.node_sids ≡ some sid → get_node_sid m y ≡ some sid.label
  unfolding get_node_sid
  label_of y sid h = ground arith

  labels_of-Follows :
      (x : ℕ) (path labels : List ℕ)
      → Reachable m
      → Connected x path
      → labels_of m path ≡ ok labels
      → Follows x labels (x ∷ path)
  unfolding labels_of
  labels_of-Follows x [] labels reach linked h =
      subst (λ ls. Follows x ls (x ∷ [])) (ok_inj h) (arrived x)
  labels_of-Follows x (y ∷ path) labels reach
        ((n, r, ip, there, peered, mine, peer, address), linked) h =
      let (sid, found, more) = >>=-eq-ok (or_raise (get y m.node_sids) value_error) _ h in
      let (rest, others, whole) = >>=-eq-ok (labels_of m path) _ more in
      let label : get_node_sid m y ≡ some sid.label =
        label_of y sid (or_raise-ok _ value_error found) in
      subst (λ ls. Follows x ls (x ∷ y ∷ path)) (ok_inj whole)
        (hop x sid.label y
          (
            n,
            entries_of n.interfaces,
            there,
            forward_entries-entries_of n.interfaces peered,
            entries_of-SomeFor n.interfaces r y sid.label ip mine peer address label,
            entries_of-AllTo n.interfaces y sid.label reach label,
          )
          (labels_of-Follows y path rest reach linked others))

  -- The manager is one that its operations lead to, labels are pushed without PHP, and each node of
  -- the path after the source, up to the last but one, is a satellite whose interfaces have peers,
  -- one of them to the next node with an address there. The first label of a stack is on top, as
  -- `encap mpls` of iproute2 reads it. If the route build makes an entry for the path, then the
  -- entry leaves by the interface that was found for the first hop, and a packet that starts at the
  -- first hop with the entry's label stack visits exactly the rest of the path: at each satellite
  -- the entries are made without an exception, there is a forwarding entry for the top label, every
  -- such entry sends the packet to the next node, and at the last node no label is left.
  pub route_to-Follows :
      (dst : Node) (src first : ℕ) (path : List ℕ) (iface_to : ℕ → Option ℕ)
      (entry : LabelStackEntry)
      → Reachable m
      → Connected first path
      → route_to t.heap m false iface_to dst (some (src ∷ first ∷ path)) ≡ some entry
      → (iface_to first ≡ some entry.interface) × Follows first entry.label_stack (first ∷ path)
  unfolding route_to get_label_stack_for_path
  route_to-Follows dst src first path iface_to entry reach linked h =
      elim (Option-cases (next_hop_of t.heap (iface_to first))) [
        | inl gone ↦ absurd (ground arith)
        | inr ((iface, ip), found) ↦
            elim (Result-cases (get_label_stack_for_path m (first ∷ path) false)) [
              | inr (x, failed) ↦ absurd (ground arith)
              | inl (labels, made) ↦
                  let leaves : iface ≡ entry.interface = ground arith in
                  let stack : labels ≡ entry.label_stack = ground arith in
                  (
                    interface_of t.heap (iface_to first) iface ip found ∙ ap some leaves,
                    subst (λ ls. Follows first ls (first ∷ path)) stack
                        (labels_of-Follows first path labels reach linked
                          (stack_tail m first path labels made)),
                  )
            ]
      ]
