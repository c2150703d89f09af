-- ===== src/SegmentRouting/Manager/Stacks.antt =====
-- The label stacks of `SegmentRoutingManager`.
use satgonetem.Base.{
  ℕ, ◌+◌, ◌≡◌, refl, ap, ◌∙◌, ◌++◌, Result, inl, inr, Bool, true, false, ◌&&◌, Option, some, List,
  [], ◌∷◌, get, get-put_self, map, nat_eq, pair_eq, ok, raise, ◌>>=◌, value_error, length,
  if◌then◌else◌, ltb, Option-cases, Bool-cases, Result-cases, arith,
}
use satgonetem.SegmentRouting.Manager.{
  NodeSid, Manager, is_some, set_custom_path, labels_of, get_label_stack_for_path,
  get_sr_route_for_destination, but_last, or_default,
}
use satgonetem.SegmentRouting.Manager.Labels.{Reachable, Reachable-IsWellFormed}

abbrev all_allocated : Manager → List ℕ → Bool
all_allocated m [] = true
all_allocated m (i ∷ path) = is_some (get i m.node_sids) && all_allocated m path

labels_of_lem :
    (m : Manager) (path : List ℕ)
    → ((i : ℕ) (sid : NodeSid) → get i m.node_sids ≡ some sid → sid.label ≡ m.node_sid_base + i)
    → labels_of m path ≡ (
        if all_allocated m path
        then ok (map (λ i. m.node_sid_base + i) path)
        else raise value_error)
unfolding labels_of
labels_of_lem m [] label = refl
labels_of_lem m (i ∷ path) label = elim (Option-cases (get i m.node_sids)) [
  | inl gone ↦ rw gone refl
  | inr (sid, found) ↦ rw (found, labels_of_lem m path label, label i sid found) (ground arith)
]

but_last-append : (path : List ℕ) (z : ℕ) → but_last (path ++ z ∷ []) ≡ path
but_last-append [] z = refl
but_last-append (x ∷ []) z = refl
but_last-append (x ∷ y ∷ path) z = ap (λ l. x ∷ l) (but_last-append (y ∷ path) z)

-- The labels of some nodes, or the ValueError where one of them has none.
abbrev pub stack_of : Manager → List ℕ → Result (List ℕ)
stack_of m nodes =
    if all_allocated m nodes then ok (map (λ i. m.node_sid_base + i) nodes) else raise value_error

long_stack :
    (m : Manager) (x y : ℕ) (path : List ℕ) (use_php : Bool)
    → Reachable m
    → get_label_stack_for_path m (x ∷ y ∷ path) use_php
      ≡ stack_of m (if use_php then but_last (y ∷ path) else y ∷ path)
unfolding get_label_stack_for_path
long_stack m x y path use_php r =
    let (base, sids, labels) = Reachable-IsWellFormed m r in
    let two_or_more : ltb (length (x ∷ y ∷ path)) 2 ≡ false = ground arith in
    rw two_or_more (
      labels_of_lem m (if use_php then but_last (y ∷ path) else y ∷ path)
        (λ i sid h. (sids i sid h).1))

-- In every manager that its operations lead to, the stack of a path with no node or one node is
-- empty. That of a path from `x` over the nodes `mid` to `z` has base plus identifier for each node
-- of `mid` under PHP, and for `z` too without PHP, in the order of the path; it is a ValueError
-- exactly if one of these nodes has no label.
pub get_label_stack_for_path_lem :
    (m : Manager) (x z : ℕ) (mid : List ℕ) (use_php : Bool)
    → Reachable m
    → (get_label_stack_for_path m [] use_php ≡ ok [])
      × (get_label_stack_for_path m (x ∷ []) use_php ≡ ok [])
      × (get_label_stack_for_path m (x ∷ (mid ++ z ∷ [])) true ≡ stack_of m mid)
      × (get_label_stack_for_path m (x ∷ (mid ++ z ∷ [])) false ≡ stack_of m (mid ++ z ∷ []))
unfolding get_label_stack_for_path
get_label_stack_for_path_lem m x z [] use_php r =
    (refl, refl, long_stack m x z [] true r, long_stack m x z [] false r)
get_label_stack_for_path_lem m x z (y ∷ mid) use_php r = (
  refl,
  refl,
  long_stack m x y (mid ++ z ∷ []) true r ∙ ap (stack_of m) (but_last-append (y ∷ mid) z),
  long_stack m x y (mid ++ z ∷ []) false r,
)

-- A route that was answered is answered again, and the manager stays as it is, if the same question
-- is put to the manager that the first answer left.
pub get_sr_route_for_destination-again :
    (m m' : Manager) (s d : ℕ) (default_path : Option (List ℕ)) (use_php : Bool)
    (r : List ℕ × List ℕ)
    → get_sr_route_for_destination m s d default_path use_php ≡ ok (r, m')
    → get_sr_route_for_destination m' s d default_path use_php ≡ ok (r, m')
unfolding get_sr_route_for_destination
get_sr_route_for_destination-again m m' s d default_path use_php r h =
    elim (Bool-cases (ltb (length path) 2)) [
      | inl short ↦ ground arith
      | inr long ↦ elim (Option-cases (get (s, d) m.custom_paths)) [
        | inr (custom, found) ↦ ground arith
        | inl none_set ↦ elim (Option-cases (get (s, d) m.label_stack_cache)) [
          | inr (labels, cached) ↦ ground arith
          | inl uncached ↦ elim (Result-cases (get_label_stack_for_path m path use_php)) [
            | inl (labels, made) ↦ ground (arith, get-put_self (s, d) labels m.label_stack_cache)
            | inr (x, failed) ↦ ground arith
          ]
        ]
      ]
    ]
  where
    path : List ℕ
    path = or_default (get (s, d) m.custom_paths) default_path

-- After a custom path was accepted for a pair, the route of the pair is that path with its own
-- label stack, or the exception of that stack, whatever the default path is and whatever was
-- cached, and nothing is cached.
pub set_custom_path-get_sr_route_for_destination :
    (m m' : Manager) (s d : ℕ) (path : List ℕ) (default_path : Option (List ℕ)) (use_php : Bool)
    → set_custom_path m s d path ≡ ok m'
    → get_sr_route_for_destination m' s d default_path use_php
      ≡ (get_label_stack_for_path m' path use_php >>= λ labels. ok ((path, labels), m'))
unfolding set_custom_path get_sr_route_for_destination
set_custom_path-get_sr_route_for_destination m m' s d [] default_path use_php h = ground arith
set_custom_path-get_sr_route_for_destination m m' s d (x ∷ path) default_path use_php h =
    ground (arith, get-put_self (s, d) (x ∷ path) m.custom_paths)
