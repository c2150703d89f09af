-- ===== src/Static/Populate.antt =====
-- Shortest-path routes for all nodes (routing/static_daemon.py, `_populate_dijkstra_igraph`). The
-- graph library is not in the repository: `shortest_paths dst` gives what
-- `get_shortest_paths(v=dst, to=None, output="vpath")` returns, with vertex names for indices: for
-- each vertex its name and the path from `dst` to it, empty if there is none; `none` where `dst` is
-- no vertex of the graph.
pub mod Transpose
pub mod Vectors
use satgonetem.Base.{
  ℕ, zero, suc, Bool, not, ◌&&◌, Option, none, some, List, [], ◌∷◌, ◌++◌, map, Text, Dict, get, put,
  filter, mem, Result, ok, raise, ◌>>=◌, or_raise, key_error, if◌then◌else◌, ◌==◌, nat_eq,
}
use satgonetem.Emulator.{Heap, Interface, Node, RoutingEntry}
use satgonetem.Static.Install.{Signature, Caches, Source, install_source_routes}

abbrev pub ShortestPaths : Type 0
ShortestPaths = ℕ → Option (List (ℕ × List ℕ))

-- `path[-2]`, with the test `len(path) >= 2`
abbrev pub second_last : List ℕ → Option ℕ
second_last [] = none
second_last (a ∷ []) = none
second_last (a ∷ b ∷ []) = some a
second_last (a ∷ b ∷ c ∷ p) = second_last (b ∷ c ∷ p)

-- One item of the comprehension for `next_hops[dst_id]`.
unfoldable pub add_hop : ℕ → ℕ → Option ℕ → Dict ℕ ℕ → Dict ℕ ℕ
add_hop dst src none hops = hops
add_hop dst src (some hop) hops = if src == dst then hops else put src hop hops

-- `next_hops[dst_id]`
unfoldable pub next_hops_to : ℕ → List (ℕ × List ℕ) → Dict ℕ ℕ → Dict ℕ ℕ
unfolding add_hop
next_hops_to dst [] hops = hops
next_hops_to dst ((src, path) ∷ paths) hops =
    next_hops_to dst paths (add_hop dst src (second_last path) hops)

-- The first loop: one dictionary for each destination, in the order of `dst_array`.
unfoldable pub all_next_hops : ShortestPaths → List ℕ → Result (List (Dict ℕ ℕ))
unfolding next_hops_to
all_next_hops shortest_paths [] = ok []
all_next_hops shortest_paths (dst ∷ dsts) = do
  paths ← or_raise (shortest_paths dst) key_error
  rest ← all_next_hops shortest_paths dsts
  ok (next_hops_to dst paths [] ∷ rest)

-- `[None] * n`
abbrev pub no_route : ℕ → Signature
no_route zero = []
no_route (suc n) = none ∷ no_route n

-- `signature[i] = next_hop`, for an index in range
abbrev pub set : Signature → ℕ → ℕ → Signature
set [] i hop = []
set (h ∷ hs) zero hop = some hop ∷ hs
set (h ∷ hs) (suc i) hop = h ∷ set hs i hop

abbrev or_no_route : ℕ → Option Signature → Signature
or_no_route n none = no_route n
or_no_route n (some s) = s

-- `for src_id, next_hop in next_hops[dst.id].items()`
unfoldable pub transpose_one : ℕ → ℕ → Dict ℕ ℕ → Dict ℕ Signature → Dict ℕ Signature
transpose_one n i [] by_src = by_src
transpose_one n i ((src, hop) ∷ hops) by_src =
    transpose_one n i hops (put src (set (or_no_route n (get src by_src)) i hop) by_src)

-- `for dst_idx, dst in enumerate(dst_array)`; `n` is `len(dst_array)`
unfoldable pub transpose_from : ℕ → ℕ → List (Dict ℕ ℕ) → Dict ℕ Signature → Dict ℕ Signature
unfolding transpose_one
transpose_from n i [] by_src = by_src
transpose_from n i (hops ∷ rest) by_src =
    transpose_from n (suc i) rest (transpose_one n i hops by_src)

-- `next_hop_by_src.get(src_id, no_route_signature)`
unfoldable pub signature_of : List (Dict ℕ ℕ) → ℕ → ℕ → Signature
unfolding transpose_from
signature_of next_hops n src = or_no_route n (get src (transpose_from n 0 next_hops []))
