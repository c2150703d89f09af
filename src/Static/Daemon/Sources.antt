-- ===== src/Static/Daemon/Sources.antt =====
-- The loop over the sources: each node is installed from its own rows of the caches.
use satgonetem.Base.{
  ℕ, Exception, ◌≡◌, ◌≢◌, refl, sym, ◌∙◌, ap, inl, inr, true, false, Option, List, [], ◌∷◌, Text,
  Dict, get, get-put, mem, AllDistinct, length, Result, ok, raise, >>=-eq-ok, or_raise, key_error,
  Result-cases, arith, nat_eq, ◌==◌,
}
use satgonetem.Emulator.{Heap, Node, RoutingEntry}
use satgonetem.Static.Install.{
  Signature, Caches, Source, build_from, or_empty, store, rebuild, install_source_routes,
}
use satgonetem.Static.Populate.{signature_of}
use satgonetem.Static.Daemon.{node_ids, source_of, install_one, install_all}
use satgonetem.Static.Daemon.Rounds.{install-cases}

abbrev Loop : Type 0
Loop = Result (Unit {0}) × Caches × List Node

abbrev add_node : Node → Loop → Loop
add_node n (r, c, ns) = (r, c, n ∷ ns)

loop_parts :
    {c c' : Caches} {ns ns' : List Node}
    → ◌≡◌ {A = Loop} (ok tt, c, ns) (ok tt, c', ns')
    → (c ≡ c') × (ns ≡ ns')
loop_parts h = (cc, cc)

raised :
    {x : Exception} {c c' : Caches} {ns ns' : List Node}
    → ◌≢◌ {A = Loop} (raise x, c, ns) (ok tt, c', ns')
raised h = cc

add_node-parts :
    (n : Node) (x : Loop) (c : Caches) (ns : List Node)
    → add_node n x ≡ (ok tt, c, ns)
    → (rest : List Node) × (x ≡ (ok tt, c, rest)) × (ns ≡ n ∷ rest)
add_node-parts n (r, d, rest) c ns h = (rest, cc, cc)

apart : (i j : ℕ) (is : List ℕ) → mem i is ≡ true → mem j is ≡ false → i ≢ j
apart i j is m n same = let e : mem i is ≡ mem j is = ap (λ k. mem k is) same in cc

-- Both rows of a source.
abbrev pub rows : Caches → ℕ → Option Signature × Option (Dict ℕ RoutingEntry)
rows c i = (get i c.source_signatures, get i c.entry_cache)

ok_inj : {x y : Caches × Node} → ok x ≡ ok y → x ≡ y
ok_inj h = cc

rebuild-rows :
    (heap : Heap) (c : Caches) (node : Node) (s : Source) (dsts : List Node) (hops : Signature)
    → (c' : Caches) (node' : Node) (i : ℕ) → rebuild heap c node s dsts hops ≡ ok (c', node')
    → i ≢ s.src_id
    → rows c' i ≡ rows c i
unfolding rebuild
rebuild-rows heap c node s dsts hops c' node' i h ne =
    let cached = or_empty (get s.src_id c.entry_cache) in
    let ((es, t), made, stored) = >>=-eq-ok (build_from heap s cached dsts hops [] []) _ h in
    let same : c' ≡ (store c node s.src_id hops (es, t)).0 = ap (λ x. x.0) (sym (ok_inj stored)) in
    ap (λ d. rows d i) same
    ∙ ground (
      arith,
      get-put s.src_id i hops c.source_signatures,
      get-put s.src_id i es c.entry_cache,
      nat_eq.beq_iff s.src_id i,
    )

install_source_routes-rows :
    (heap : Heap) (c : Caches) (node : Node) (s : Source) (dsts : List Node) (ids : List ℕ)
    (hops : Signature)
    → (c' : Caches) (node' : Node) (i : ℕ)
    → install_source_routes heap c node s dsts ids hops ≡ ok (c', node')
    → i ≢ s.src_id
    → rows c' i ≡ rows c i
install_source_routes-rows heap c node s dsts ids hops c' node' i h ne =
    elim (install-cases heap c node s dsts ids hops c' node' h) [
      | inl built ↦ rebuild-rows heap c node s dsts hops c' node' i built ne
      | inr (old, found, reused) ↦ ap (λ x. rows x.0 i) (sym reused)
    ]

module _ (heap : Heap) (dst_array : List Node) (next_hops : List (Dict ℕ ℕ)) (ips : Dict ℕ Text)
    (ifaces : Dict ℕ (Dict ℕ ℕ)) where
  install_one-rows :
      (c c' : Caches) (n n' : Node) (i : ℕ)
      → install_one heap dst_array next_hops ips ifaces c n ≡ ok (c', n')
      → i ≢ n.id
      → rows c' i ≡ rows c i
  install_one-rows c c' n n' i h ne =
      let (summary, known, installed) = >>=-eq-ok (or_raise (get n.id ips) key_error) _ h in
      install_source_routes-rows heap c n (source_of heap dst_array next_hops ips ifaces n summary)
        dst_array (node_ids dst_array) (signature_of next_hops (length dst_array) n.id) c' n' i
        installed ne

  -- Each node was installed from the rows that it had before the loop, and the caches have, after
  -- the loop, the rows that its install left.
  abbrev pub EachInstalled : Caches → Caches → List Node → List Node → Type 0
  EachInstalled c c' [] [] = Unit
  EachInstalled c c' [] (n' ∷ ns') = ⊥
  EachInstalled c c' (n ∷ ns) [] = ⊥
  EachInstalled c c' (n ∷ ns) (n' ∷ ns') =
      ((before : Caches) × (after : Caches) × (install_one heap dst_array next_hops ips ifaces
            before n
          ≡ ok (after, n'))
        × (rows before n.id ≡ rows c n.id)
        × (rows c' n.id ≡ rows after n.id))
      × EachInstalled c c' ns ns'

  EachInstalled-earlier :
      (c d c' : Caches) (ns ns' : List Node)
      → ((i : ℕ) → mem i (node_ids ns) ≡ true → rows c i ≡ rows d i)
      → EachInstalled c c' ns ns'
      → EachInstalled d c' ns ns'
  EachInstalled-earlier c d c' [] [] same h = tt
  EachInstalled-earlier c d c' [] (n' ∷ ns') same h = h
  EachInstalled-earlier c d c' (n ∷ ns) [] same h = h
  EachInstalled-earlier c d c' (n ∷ ns) (n' ∷ ns') same ((before, after, done, first, last), rest) =
      (
        (before, after, done, first ∙ same n.id (ground (arith, nat_eq.beq_iff n.id n.id)), last),
        EachInstalled-earlier c d c' ns ns' (λ i m. same i (ground arith)) rest,
      )

  -- Where the loop over sources with distinct identifiers ends without an exception, each node of
  -- the result is what the install of that node gives from caches that have, for the node, the rows
  -- of before the loop; after the loop the caches have, for each node, the rows that its install
  -- left, and for every other identifier the rows of before.
  pub install_all-EachInstalled :
      (c c' : Caches) (ns ns' : List Node)
      → AllDistinct (node_ids ns)
      → install_all heap dst_array next_hops ips ifaces c ns ≡ (ok tt, c', ns')
      → EachInstalled c c' ns ns' × ((i : ℕ) → mem i (node_ids ns) ≡ false → rows c' i ≡ rows c i)
  unfolding install_all
  install_all-EachInstalled c c' [] ns' distinct h =
      let (same_c, same_ns) = loop_parts h in rw (← same_c, ← same_ns) (tt, λ i m. refl)
  install_all-EachInstalled c c' (n ∷ ns) ns' distinct h =
      elim (Result-cases (install_one heap dst_array next_hops ips ifaces c n)) [
        | inr (x, failed) ↦
            let impossible : ◌≡◌ {A = Loop} (raise x, c, n ∷ ns) (ok tt, c', ns') =
              rw (← h, install_all, failed) refl in
            absurd (raised impossible)
        | inl ((d, n'), done) ↦
            let stepped : add_node n' (install_all heap dst_array next_hops ips ifaces d ns)
                ≡ (ok tt, c', ns') =
              rw (← h, install_all, done) refl in
            let (ns'', looped, whole) =
              add_node-parts n' (install_all heap dst_array next_hops ips ifaces d ns) c' ns'
                stepped in
            let (each, others) = install_all-EachInstalled d c' ns ns'' distinct.1 looped in
            rw whole (
              (
                (c, d, done, refl, others n.id distinct.0),
                EachInstalled-earlier d c c' ns ns''
                    (λ i m.
                      install_one-rows c d n n' i done
                        (λ same. apart i n.id (node_ids ns) m distinct.0 same))
                    each,
              ),
              λ i m.
                  others i (ground arith)
                  ∙ install_one-rows c d n n' i done (λ same.
                    let y : (n.id == i) ≡ true = (nat_eq.beq_iff n.id i).1 (sym same) in
                    ground arith),
            )
      ]
