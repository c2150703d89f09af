-- ===== src/Static/Populate/Transpose.antt =====
-- The transposed vectors hold each next hop at the index of its destination.
use satgonetem.Base.{
  ℕ, zero, suc, ◌≡◌, Option, none, some, List, [], ◌∷◌, keys, AllDistinct, nat_eq,
}
use satgonetem.Static.Populate.{ShortestPaths}
use satgonetem.Static.Populate.Vectors.{hop_toward}

-- The graph library returns one path for each vertex.
abbrev pub OnePathEach : ShortestPaths → Type 0
OnePathEach shortest_paths =
    (dst : ℕ) (paths : List (ℕ × List ℕ))
    → shortest_paths dst ≡ some paths
    → AllDistinct (keys paths)

-- Which of the results of the graph library belongs to the destination at an index.
abbrev pub hop_at : ShortestPaths → List ℕ → ℕ → ℕ → Option ℕ
hop_at shortest_paths [] j src = none
hop_at shortest_paths (dst ∷ dsts) zero src = elim (shortest_paths dst) [
  | none ↦ none
  | some paths ↦ hop_toward dst paths src
]
hop_at shortest_paths (dst ∷ dsts) (suc j) src = hop_at shortest_paths dsts j src
