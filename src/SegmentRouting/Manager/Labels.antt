-- ===== src/SegmentRouting/Manager/Labels.antt =====
-- The labels of `SegmentRoutingManager`: one for each node, each for one node, all in range.
use satgonetem.Base.{
  ℕ, subst, ◌+◌, ◌≤◌, ◌≡◌, ◌≢◌, ◌↔◌, refl, sym, ◌∙◌, ap, inl, inr, Bool, Option, none, some, List,
  Text, Dict, get, put, get-put, get-put_self, nat_eq, pair_eq, ok, raise, runtime_error, leb, ◌==◌,
  Option-cases, Bool-cases, arith, leb→le, ==_refl,
}
use satgonetem.SegmentRouting.Manager.{
  NodeSid, mpls_label_min, mpls_label_max, Manager, new_manager, new_sid, allocate_node_sid,
  get_node_sid, get_node_for_sid, set_custom_path, clear_custom_path, clear_cache, reset,
  get_sr_route_for_destination,
}

-- The labels and the two maps of them, which no other operation touches.
abbrev pub IsWellFormed : Manager → Type 0
IsWellFormed m =
    (mpls_label_min ≤ m.node_sid_base)
    × ((i : ℕ) (sid : NodeSid)
        → get i m.node_sids ≡ some sid
        → (sid.node_id ≡ i)
          × (sid.label ≡ m.node_sid_base + i)
          × (sid.label ≤ mpls_label_max)
          × (get sid.label m.reverse_sid_map ≡ some i))
    × ((l i : ℕ)
        → get l m.reverse_sid_map ≡ some i
        → (sid : NodeSid) × (get i m.node_sids ≡ some sid) × (sid.label ≡ l))

-- One call of an operation that changes the manager.
pub data Step : Manager → Manager → Type 0 where
  allocate :
      {m m' : Manager} (i : ℕ) (name : Text) (sid : NodeSid)
      → allocate_node_sid m i name ≡ ok (sid, m')
      → Step m m'
  set_path :
      {m m' : Manager} (s d : ℕ) (path : List ℕ) → set_custom_path m s d path ≡ ok m' → Step m m'
  clear_path : {m : Manager} (s d : ℕ) → Step m (clear_custom_path m s d).1
  route :
      {m m' : Manager} (s d : ℕ) (default_path : Option (List ℕ)) (use_php : Bool)
      (r : List ℕ × List ℕ)
      → get_sr_route_for_destination m s d default_path use_php ≡ ok (r, m')
      → Step m m'
  clear : {m : Manager} → Step m (clear_cache m)
  restart : {m : Manager} → Step m (reset m)

pub data Reachable : Manager → Type 0 where
  start : (base adj : ℕ) → Reachable (new_manager base adj)
  next : {m m' : Manager} → Reachable m → Step m m' → Reachable m'

some_inj {ℓ} : {A : Type ℓ} {a b : A} → some a ≡ some b → a ≡ b
some_inj h = cc

new_manager-IsWellFormed : (base adj : ℕ) → IsWellFormed (new_manager base adj)
unfolding new_manager
new_manager-IsWellFormed base adj = (ground arith, λ i sid h. cc, λ l i h. cc)

new_sid-IsWellFormed :
    (m : Manager) (i : ℕ) (name : Text)
    → IsWellFormed m
    → get i m.node_sids ≡ none
    → m.node_sid_base + i ≤ mpls_label_max
    → IsWellFormed (new_sid m i name).1
new_sid-IsWellFormed m i name (base, sids, labels) fresh bound = (
  base,
  λ j sid h. elim (Bool-cases (i == j)) [
    | inl y ↦
        let same : i ≡ j = (nat_eq.beq_iff i j).0 y in
        let this : made ≡ sid =
          some_inj (sym (get-put_self i made m.node_sids) ∙ ap (λ k. get k known) same ∙ h) in
        (
          ap (λ x. x.node_id) (sym this) ∙ same,
          ap (λ x. x.label) (sym this) ∙ ap (λ k. m.node_sid_base + k) same,
          rw (← this) bound,
          rw (← this) (get-put_self (m.node_sid_base + i) i m.reverse_sid_map ∙ ap some same),
        )
    | inr n ↦
        let (id, label, small, back) = sids j sid (ground (arith, get-put i j made m.node_sids)) in
        (
          id,
          label,
          small,
          ground (
            arith,
            get-put (m.node_sid_base + i) sid.label i m.reverse_sid_map,
            nat_eq.beq_iff i j,
          ),
        )
  ],
  λ l j h. elim (Bool-cases (m.node_sid_base + i == l)) [
    | inl y ↦ (
      made,
      ground (
        arith,
        get-put (m.node_sid_base + i) l i m.reverse_sid_map,
        get-put i j made m.node_sids,
        ==_refl i,
      ),
      ground arith,
    )
    | inr n ↦
        let (sid, found, label) =
          labels l j (ground (arith, get-put (m.node_sid_base + i) l i m.reverse_sid_map)) in
        (sid, ground (arith, get-put i j made m.node_sids), label)
  ],
)
  where
    made : NodeSid
    made = (new_sid m i name).0

    known : Dict ℕ NodeSid
    known = put i made m.node_sids

-- What the labels are made of.
abbrev pub labels_part : Manager → ℕ × Dict ℕ NodeSid × Dict ℕ ℕ
labels_part m = (m.node_sid_base, m.node_sids, m.reverse_sid_map)

IsWellFormed-same :
    (m m' : Manager) → labels_part m ≡ labels_part m' → IsWellFormed m → IsWellFormed m'
IsWellFormed-same m m' same wf = subst (λ x. WellFormedParts x) same wf
  where
    WellFormedParts : ℕ × Dict ℕ NodeSid × Dict ℕ ℕ → Type 0
    WellFormedParts (base, sids, back) =
        IsWellFormed (record m { node_sid_base = base; node_sids = sids; reverse_sid_map = back })

abbrev Allocated : Type 0
Allocated = NodeSid × Manager

after : {x y : Allocated} → ok x ≡ ok y → x.1 ≡ y.1
after h = cc

raise-ne-ok : {x : Allocated} → raise runtime_error ≢ ok x
raise-ne-ok h = cc

allocate-IsWellFormed :
    (m m' : Manager) (i : ℕ) (name : Text) (sid : NodeSid)
    → allocate_node_sid m i name ≡ ok (sid, m')
    → IsWellFormed m
    → IsWellFormed m'
unfolding allocate_node_sid
allocate-IsWellFormed m m' i name sid h wf = elim (Option-cases (get i m.node_sids)) [
  | inr (old, found) ↦
      let same : ok (old, m) ≡ ok (sid, m') = rw (← h, allocate_node_sid, found) refl in
      subst IsWellFormed (after same) wf
  | inl gone ↦ elim (Bool-cases (leb (m.node_sid_base + i) mpls_label_max)) [
    | inl small ↦
        let same : ok (new_sid m i name) ≡ ok (sid, m') =
          rw (← h, allocate_node_sid, gone, small) refl in
        subst IsWellFormed (after same)
          (new_sid-IsWellFormed m i name wf gone (ground (arith, leb→le _ _ small)))
    | inr large ↦
        let impossible : raise runtime_error ≡ ok (sid, m') =
          rw (← h, allocate_node_sid, gone, large) refl in
        absurd (raise-ne-ok impossible)
  ]
]

set_custom_path-labels :
    (m m' : Manager) (s d : ℕ) (path : List ℕ)
    → set_custom_path m s d path ≡ ok m'
    → labels_part m ≡ labels_part m'
unfolding set_custom_path
set_custom_path-labels m m' s d path h = ground arith

get_sr_route-labels :
    (m m' : Manager) (s d : ℕ) (default_path : Option (List ℕ)) (use_php : Bool)
    (r : List ℕ × List ℕ)
    → get_sr_route_for_destination m s d default_path use_php ≡ ok (r, m')
    → labels_part m ≡ labels_part m'
unfolding get_sr_route_for_destination
get_sr_route-labels m m' s d default_path use_php r h = ground arith

Step-IsWellFormed : {m m' : Manager} → Step m m' → IsWellFormed m → IsWellFormed m'
unfolding clear_custom_path
Step-IsWellFormed {m} {m'} (allocate i name sid h) wf = allocate-IsWellFormed m m' i name sid h wf
Step-IsWellFormed {m} {m'} (set_path s d path h) wf =
    IsWellFormed-same m m' (set_custom_path-labels m m' s d path h) wf
Step-IsWellFormed {m} {m'} (clear_path s d) wf = wf
Step-IsWellFormed {m} {m'} (route s d default_path use_php r h) wf =
    IsWellFormed-same m m' (get_sr_route-labels m m' s d default_path use_php r h) wf
Step-IsWellFormed {m} {m'} clear wf = wf
Step-IsWellFormed {m} {m'} restart (base, sids, labels) = (base, λ i sid h. cc, λ l i h. cc)

-- The labels of every manager that its operations lead to are well-formed.
pub Reachable-IsWellFormed : (m : Manager) → Reachable m → IsWellFormed m
Reachable-IsWellFormed _ (start base adj) = new_manager-IsWellFormed base adj
Reachable-IsWellFormed _ (next {m} r step) = Step-IsWellFormed step (Reachable-IsWellFormed m r)

-- In every manager that its operations lead to, a node has a label exactly if the reverse map gives
-- the node for the label.
pub get_node_sid-get_node_for_sid :
    (m : Manager) (i l : ℕ)
    → Reachable m
    → (get_node_sid m i ≡ some l) ↔ (get_node_for_sid m l ≡ some i)
unfolding get_node_sid get_node_for_sid
get_node_sid-get_node_for_sid m i l r =
    let (base, sids, labels) = Reachable-IsWellFormed m r in
    (
      λ h. elim (Option-cases (get i m.node_sids)) [
        | inl gone ↦ ground arith
        | inr (sid, found) ↦ let (id, label, small, back) = sids i sid found in ground arith
      ],
      λ h. let (sid, found, same) = labels l i h in rw (get_node_sid, found) (ap some same),
    )

-- In every manager that its operations lead to, a label is the base plus the identifier of its
-- node, at least 16, and at most 1048575.
pub get_node_sid-range :
    (m : Manager) (i l : ℕ)
    → Reachable m
    → get_node_sid m i ≡ some l
    → (l ≡ m.node_sid_base + i) × (mpls_label_min ≤ l) × (l ≤ mpls_label_max)
unfolding get_node_sid
get_node_sid-range m i l r h = elim (Option-cases (get i m.node_sids)) [
  | inl gone ↦ ground arith
  | inr (sid, found) ↦
      let (base, sids, labels) = Reachable-IsWellFormed m r in
      let (id, label, small, back) = sids i sid found in
      let this : sid.label ≡ l = ground arith in (ground arith, ground arith, ground arith)
]
