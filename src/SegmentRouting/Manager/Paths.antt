-- ===== src/SegmentRouting/Manager/Paths.antt =====
-- The custom paths of `SegmentRoutingManager`.
use satgonetem.Base.{
  ℕ, ◌≡◌, sym, subst, inl, inr, Bool, true, Option, some, List, Text, Dict, get, put, pop, get-put,
  get-pop, nat_eq, pair_eq, ok, length, leb, ◌==◌, Bool-cases, arith,
}
use satgonetem.SegmentRouting.Manager.{
  NodeSid, Manager, Pair, new_manager, allocate_node_sid, set_custom_path, get_custom_path,
  clear_custom_path, get_sr_route_for_destination, starts_with, ends_with,
}
use satgonetem.SegmentRouting.Manager.Labels.{
  Step, allocate, set_path, clear_path, route, clear, restart, Reachable, start, next,
}

-- What `set_custom_path` asks of a path.
abbrev pub IsPath : Pair → List ℕ → Type 0
IsPath (s, d) path =
    (leb 2 (length path) ≡ true) × (starts_with s path ≡ true) × (ends_with d path ≡ true)

abbrev AllPaths : Dict Pair (List ℕ) → Type 0
AllPaths paths = (key : Pair) (path : List ℕ) → get key paths ≡ some path → IsPath key path

some_inj : {x y : List ℕ} → some x ≡ some y → x ≡ y
some_inj h = cc

put-AllPaths :
    (paths : Dict Pair (List ℕ)) (key : Pair) (path : List ℕ)
    → IsPath key path
    → AllPaths paths
    → AllPaths (put key path paths)
put-AllPaths paths key path valid all other q h = elim (Bool-cases (key == other)) [
  | inl y ↦
      let same : key ≡ other = (pair_eq.beq_iff key other).0 y in
      let path_same : path ≡ q = some_inj (ground (arith, get-put key other path paths)) in
      subst (λ k. IsPath k q) same (subst (λ p. IsPath key p) path_same valid)
  | inr n ↦ all other q (ground (arith, get-put key other path paths))
]

pop-AllPaths : (paths : Dict Pair (List ℕ)) (key : Pair) → AllPaths paths → AllPaths (pop key paths)
pop-AllPaths paths key all other q h = all other q (ground (arith, get-pop key other paths))

set_custom_path-parts :
    (m m' : Manager) (s d : ℕ) (path : List ℕ)
    → set_custom_path m s d path ≡ ok m'
    → IsPath (s, d) path × (m'.custom_paths ≡ put (s, d) path m.custom_paths)
unfolding set_custom_path
set_custom_path-parts m m' s d path h = ((ground arith, ground arith, ground arith), ground arith)

allocate_node_sid-paths :
    (m m' : Manager) (i : ℕ) (name : Text) (sid : NodeSid)
    → allocate_node_sid m i name ≡ ok (sid, m')
    → m'.custom_paths ≡ m.custom_paths
unfolding allocate_node_sid
allocate_node_sid-paths m m' i name sid h = ground arith

get_sr_route-paths :
    (m m' : Manager) (s d : ℕ) (default_path : Option (List ℕ)) (use_php : Bool)
    (r : List ℕ × List ℕ)
    → get_sr_route_for_destination m s d default_path use_php ≡ ok (r, m')
    → m'.custom_paths ≡ m.custom_paths
unfolding get_sr_route_for_destination
get_sr_route-paths m m' s d default_path use_php r h = ground arith

Step-AllPaths : {m m' : Manager} → Step m m' → AllPaths m.custom_paths → AllPaths m'.custom_paths
unfolding clear_custom_path
Step-AllPaths {m} {m'} (allocate i name sid h) all =
    subst AllPaths (sym (allocate_node_sid-paths m m' i name sid h)) all
Step-AllPaths {m} {m'} (set_path s d path h) all =
    let (valid, stored) = set_custom_path-parts m m' s d path h in
    subst AllPaths (sym stored) (put-AllPaths m.custom_paths (s, d) path valid all)
Step-AllPaths {m} {m'} (clear_path s d) all = pop-AllPaths m.custom_paths (s, d) all
Step-AllPaths {m} {m'} (route s d default_path use_php r h) all =
    subst AllPaths (sym (get_sr_route-paths m m' s d default_path use_php r h)) all
Step-AllPaths clear all = all
Step-AllPaths restart all = λ key path h. cc

Reachable-AllPaths : (m : Manager) → Reachable m → AllPaths m.custom_paths
unfolding new_manager
Reachable-AllPaths _ (start base adj) = λ key path h. cc
Reachable-AllPaths _ (next {m} r step) = Step-AllPaths step (Reachable-AllPaths m r)

-- In every manager that its operations lead to, a custom path that is stored for a pair has at
-- least two nodes, starts with the source and ends with the destination.
pub get_custom_path-IsPath :
    (m : Manager) (s d : ℕ) (path : List ℕ)
    → Reachable m
    → get_custom_path m s d ≡ some path
    → IsPath (s, d) path
unfolding get_custom_path
get_custom_path-IsPath m s d path r h = Reachable-AllPaths m r (s, d) path h
