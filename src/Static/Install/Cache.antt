-- ===== src/Static/Install/Cache.antt =====
-- The caches of the route build change no route.
use satgonetem.Base.{
  ℕ, ◌≡◌, refl, sym, ◌∙◌, ap, inl, inr, true, false, Option, none, some, List, [], ◌∷◌, ◌++◌, map,
  Dict, get, put, get-put, get-put_self, Result, ok, raise, ◌>>=◌, >>=-eq-ok, >>=-ext, or_raise,
  key_error, ==_refl, mem, AllDistinct, Option-cases, arith, nat_eq, text_eq, list_eq, option_eq,
}
use mathlib.Core.List.{append-nil, append_assoc}
use satgonetem.Emulator.{Heap, Node, RoutingEntry}
use satgonetem.Static.Install.{
  Signature, Caches, Source, reuse_or, outgoing, route_entry, build_from, cached_table, or_empty,
  store, rebuild, install_source_routes,
}

-- Cached entries have the `update` mark that new ones have.
abbrev pub IsFresh : Dict ℕ RoutingEntry → Type 0
IsFresh cached = (i : ℕ) (e : RoutingEntry) → get i cached ≡ some e → e.update ≡ true

reuse_or-eq :
    (o : Option RoutingEntry) (fresh : RoutingEntry)
    → ((e : RoutingEntry) → o ≡ some e → e.update ≡ fresh.update)
    → reuse_or o fresh ≡ fresh
reuse_or-eq none fresh h = refl
reuse_or-eq (some e) fresh h = ground (
  arith,
  h e refl,
  text_eq.beq_iff e.destination fresh.destination,
  text_eq.beq_iff e.gateway fresh.gateway,
  text_eq.beq_iff e.target_node fresh.target_node,
  text_eq.beq_iff e.source_node fresh.source_node,
  text_eq.beq_iff e.source fresh.source,
)

module _ (heap : Heap) (s : Source) where
  route_entry-cached :
      (cached : Dict ℕ RoutingEntry) (dst : Node) (next_hop : ℕ)
      → IsFresh cached
      → route_entry heap s cached dst next_hop ≡ route_entry heap s [] dst next_hop
  unfolding route_entry
  route_entry-cached cached dst next_hop fresh = >>=-ext (outgoing heap s next_hop) _ _ λ x.
      >>=-ext (or_raise (get dst.id s.summarized_ips) key_error) _ _
        λ destination. ap ok (reuse_or-eq (get dst.id cached) _ (fresh dst.id))

  build_from-cached :
      (cached : Dict ℕ RoutingEntry) (dsts : List Node) (hops : Signature)
      → (entries : Dict ℕ RoutingEntry) (table : List RoutingEntry) → IsFresh cached
      → build_from heap s cached dsts hops entries table
        ≡ build_from heap s [] dsts hops entries table
  unfolding build_from
  build_from-cached cached [] hops entries table fresh = refl
  build_from-cached cached (dst ∷ dsts) [] entries table fresh = refl
  build_from-cached cached (dst ∷ dsts) (none ∷ hops) entries table fresh =
      build_from-cached cached dsts hops entries table fresh
  build_from-cached cached (dst ∷ dsts) (some hop ∷ hops) entries table fresh =
      rw (route_entry-cached cached dst hop fresh) (
        >>=-ext (route_entry heap s [] dst hop) _ _ λ entry.
          build_from-cached cached dsts hops (put dst.id entry entries) (table ++ entry ∷ []) fresh)

-- The table that the shortcut would put together from the entries just stored.
abbrev ids : List Node → List ℕ
ids = map (λ n. n.id)

abbrev Absent : Dict ℕ RoutingEntry → List ℕ → Type 0
Absent d is = (i : ℕ) → mem i is ≡ true → get i d ≡ none

cached_table-Absent : (d : Dict ℕ RoutingEntry) (is : List ℕ) → Absent d is → cached_table d is ≡ []
unfolding cached_table
cached_table-Absent d [] absent = refl
cached_table-Absent d (i ∷ is) absent =
    rw (absent i (ground (arith, ==_refl i)), cached_table)
      (cached_table-Absent d is (λ j m. absent j (ground arith)))

module _ (heap : Heap) (s : Source) (cached : Dict ℕ RoutingEntry) where
  -- The loop stores under each identifier what it appends, and leaves other identifiers alone.
  pub build_from-cached_table :
      (dsts : List Node) (hops : Signature) (entries : Dict ℕ RoutingEntry)
      (table : List RoutingEntry)
      → {es : Dict ℕ RoutingEntry} {t : List RoutingEntry} → AllDistinct (ids dsts)
      → Absent entries (ids dsts)
      → build_from heap s cached dsts hops entries table ≡ ok (es, t)
      → (t ≡ table ++ cached_table es (ids dsts))
        × ((i : ℕ) → mem i (ids dsts) ≡ false → get i es ≡ get i entries)
  unfolding build_from cached_table
  build_from-cached_table [] hops entries table {es} {t} distinct absent h =
      (cc (append-nil table), λ i m. cc)
  build_from-cached_table (dst ∷ dsts) [] entries table {es} {t} distinct absent h = (
    let stopped : es ≡ entries = cc in
        rw (stopped, cached_table-Absent entries (ids (dst ∷ dsts)) absent) (cc (append-nil table)),
    λ i m. cc,
  )
  build_from-cached_table (dst ∷ dsts) (none ∷ hops) entries table {es} {t} distinct absent h =
      let (whole, others) =
        build_from-cached_table dsts hops entries table distinct.1 (λ j m. absent j (ground arith))
          h in
      let gone : get dst.id es ≡ none =
        others dst.id distinct.0 ∙ absent dst.id (ground (arith, ==_refl dst.id)) in
      (rw (gone, cached_table) whole, λ i m. others i (ground arith))
  build_from-cached_table (dst ∷ dsts) (some hop ∷ hops) entries table {es} {t} distinct absent h =
      let (entry, made, rest) = >>=-eq-ok (route_entry heap s cached dst hop) _ h in
      let (whole, others) =
        build_from-cached_table dsts hops (put dst.id entry entries) (table ++ entry ∷ [])
          distinct.1
          (λ j m.
            ground (arith, get-put dst.id j entry entries, absent j (ground arith), distinct.0))
          rest in
      let here : get dst.id es ≡ some entry =
        others dst.id distinct.0 ∙ get-put_self dst.id entry entries in
      (
        rw (here, cached_table) (whole ∙ append_assoc table (entry ∷ []) _),
        λ i m. others i (ground arith) ∙ ground (arith, get-put dst.id i entry entries),
      )

-- What an install leaves behind for one source: the node, and the two cache rows.
abbrev pub outcome :
    ℕ → Result (Caches × Node) → Result (Node × Option (Dict ℕ RoutingEntry) × Option Signature)
outcome src_id (ok (c, node)) = ok (node, get src_id c.entry_cache, get src_id c.source_signatures)
outcome src_id (raise x) = raise x

outcome-store :
    (c d : Caches) (node : Node) (src_id : ℕ) (hops : Signature)
    → (m : Result (Dict ℕ RoutingEntry × List RoutingEntry))
    → outcome src_id (m >>= λ built. ok (store c node src_id hops built))
      ≡ outcome src_id (m >>= λ built. ok (store d node src_id hops built))
outcome-store c d node src_id hops (raise x) = refl
outcome-store c d node src_id hops (ok (entries, table)) = simp (
  get-put_self src_id entries c.entry_cache,
  get-put_self src_id entries d.entry_cache,
  get-put_self src_id hops c.source_signatures,
  get-put_self src_id hops d.source_signatures,
)

-- What the end of a build has written.
store-parts :
    (c : Caches) (node : Node) (src_id : ℕ) (hops : Signature)
    → (m : Result (Dict ℕ RoutingEntry × List RoutingEntry)) (c' : Caches) (node' : Node)
    → (m >>= λ built. ok (store c node src_id hops built)) ≡ ok (c', node')
    → (es : Dict ℕ RoutingEntry) × (t : List RoutingEntry) × (m ≡ ok (es, t))
      × (get src_id c'.entry_cache ≡ some es)
      × (get src_id c'.source_signatures ≡ some hops)
      × (node'.ipv4_routing_table ≡ t)
store-parts c node src_id hops (raise x) c' node' h = cc
store-parts c node src_id hops (ok (es, t)) c' node' h = (
  es,
  t,
  refl,
  ground (arith, get-put_self src_id es c.entry_cache),
  ground (arith, get-put_self src_id hops c.source_signatures),
  ground arith,
)

rebuild_lem :
    (heap : Heap) (c : Caches) (node : Node) (s : Source) (dsts : List Node) (hops : Signature)
    → (build_from heap s (or_empty (get s.src_id c.entry_cache)) dsts hops [] [] >>= λ built.
        ok (store c node s.src_id hops built))
      ≡ rebuild heap c node s dsts hops
unfolding rebuild
rebuild_lem heap c node s dsts hops = refl

module _ (heap : Heap) (c : Caches) (node : Node) (s : Source) (dsts : List Node)
    (hops : Signature) where
  -- Where the cached entries of the source have the `update` mark that new entries have, the build
  -- of its routes with the cached entries leaves the same node and the same cache rows, or the same
  -- exception, as with an empty cache.
  pub rebuild-cache :
      ((d : Dict ℕ RoutingEntry) → get s.src_id c.entry_cache ≡ some d → IsFresh d)
      → outcome s.src_id (rebuild heap c node s dsts hops)
        ≡ outcome s.src_id (rebuild heap (record c { entry_cache = [] }) node s dsts hops)
  unfolding rebuild
  rebuild-cache fresh =
      rw (build_from-cached heap s (or_empty (get s.src_id c.entry_cache)) dsts hops [] [] known)
        (outcome-store c (record c { entry_cache = [] }) node s.src_id hops _)
    where
      known : IsFresh (or_empty (get s.src_id c.entry_cache))
      known = elim (Option-cases (get s.src_id c.entry_cache)) [
        | inl gone ↦ rw gone (λ i e h. cc)
        | inr (d, found) ↦ rw found (fresh d found)
      ]

  -- After a build toward distinct destinations, a second install of the same source toward the same
  -- destinations with the same next hops takes the shortcut, changes no cache, and keeps the table
  -- that the build made, as both tables.
  pub install_source_routes-again :
      (c' : Caches) (node' : Node)
      → AllDistinct (map (λ n. n.id) dsts)
      → rebuild heap c node s dsts hops ≡ ok (c', node')
      → install_source_routes heap c' node' s dsts (map (λ n. n.id) dsts) hops
        ≡ ok (
          c',
          record node' {
            ipv4_previous_routing_table = node'.ipv4_routing_table;
            tables_shared = true;
          },
        )
  unfolding install_source_routes
  install_source_routes-again c' node' distinct h =
      let (es, t, made, row, sig, kept) =
        store-parts c node s.src_id hops
          (build_from heap s (or_empty (get s.src_id c.entry_cache)) dsts hops [] []) c' node'
          (rebuild_lem heap c node s dsts hops ∙ h) in
      let (whole, others) =
        build_from-cached_table heap s (or_empty (get s.src_id c.entry_cache)) dsts hops [] []
          distinct (λ i m. refl) made in
      let table : cached_table es (map (λ n. n.id) dsts) ≡ node'.ipv4_routing_table =
        sym (kept ∙ whole) in
      rw (row, sig, ==_refl (some hops), install_source_routes)
        (ap
          (λ kept_table. ok (
            c',
            record node' {
              ipv4_routing_table = kept_table;
              ipv4_previous_routing_table = kept_table;
              tables_shared = true;
            },
          ))
          table)
