-- ===== src/Static/Daemon/Rounds.antt =====
-- One node through one round of `update`: rotation of its tables, the route build with its caches,
-- and the diff that is sent to its container.
use satgonetem.Base.{
  ℕ, ◌≡◌, ◌≢◌, refl, sym, ◌∙◌, ap, ◌⊎◌, inl, inr, Bool, true, false, Option, none, some, List, [],
  ◌∷◌, map, Text, Dict, get, get-put_self, mem, OnePerKey, AllDistinct, Result, ok, >>=-eq-ok, ◌==◌,
  ==_refl, if◌then◌else◌, or_else, arith, nat_eq, text_eq, list_eq, option_eq,
}
use satgonetem.Emulator.{Heap, Node, RoutingEntry}
use satgonetem.Static.Diff.{Prefix, Via, Key, Line, emit_batch_commands, text_pair_eq, key_eq}
use satgonetem.Static.Diff.Kernel.{Kernel, run}
use satgonetem.Static.Diff.Refines.{surviving}
use satgonetem.Static.Diff.Batches.{AllLive}
use satgonetem.Static.Diff.Tables.{table_keys, Shows, emit_batch_commands-Shows}
use satgonetem.Static.Install.{
  Signature, Caches, Source, build_from, cached_table, or_empty, rebuild, reuse,
  install_source_routes,
}
use satgonetem.Static.Install.Cache.{build_from-cached_table}
use satgonetem.Static.Daemon.{equalize}

surviving-AllLive :
    (live : List Text) (all ks : List Key)
    → AllLive live all
    → ((k : Key) → mem k ks ≡ true → mem k all ≡ true)
    → surviving live ks ≡ ks
surviving-AllLive live all [] l sub = refl
surviving-AllLive live all (k ∷ ks) l sub = ground (
  arith,
  l k (sub k (ground (arith, ==_refl k))),
  surviving-AllLive live all ks l (λ j m. sub j (ground arith)),
)

ok_keys : {x y : List Key} → ok x ≡ ok y → x ≡ y
ok_keys h = cc

inj_ok : {x y : Caches × Node} → ok x ≡ ok y → x ≡ y
inj_ok h = cc

choice-cases :
    (c : Caches) (node : Node) (ids : List ℕ) (row : Option (Dict ℕ RoutingEntry)) (same : Bool)
    → (rest : Result (Caches × Node)) {x : Caches × Node}
    → (elim row [ none ↦ rest | some old ↦ if same then ok (reuse c node old ids) else rest ])
      ≡ ok x
    → (rest ≡ ok x) ⊎ ((old : Dict ℕ RoutingEntry) × (row ≡ some old) × (reuse c node old ids ≡ x))
choice-cases c node ids none same rest h = inl h
choice-cases c node ids (some old) false rest h = inl h
choice-cases c node ids (some old) true rest h = inr (old, refl, inj_ok h)

pub install-cases :
    (heap : Heap) (c : Caches) (node : Node) (s : Source) (dsts : List Node) (ids : List ℕ)
    (hops : Signature)
    → (c' : Caches) (node' : Node)
    → install_source_routes heap c node s dsts ids hops ≡ ok (c', node')
    → (rebuild heap c node s dsts hops ≡ ok (c', node'))
      ⊎ ((old : Dict ℕ RoutingEntry) × (get s.src_id c.entry_cache ≡ some old)
          × (reuse c node old ids ≡ (c', node')))
unfolding install_source_routes rebuild
install-cases heap c node s dsts ids hops c' node' h =
    choice-cases c node ids (get s.src_id c.entry_cache)
      (some hops == get s.src_id c.source_signatures) (rebuild heap c node s dsts hops) h

-- The current table is the one that the shortcut would put together from the cache.
abbrev pub IsCached : Caches → ℕ → List ℕ → Node → Type 0
IsCached c src_id ids node =
    (es : Dict ℕ RoutingEntry)
    → get src_id c.entry_cache ≡ some es
    → node.ipv4_routing_table ≡ cached_table es ids

rebuild-parts :
    (heap : Heap) (c : Caches) (node : Node) (s : Source) (dsts : List Node) (hops : Signature)
    → (c' : Caches) (node' : Node) → AllDistinct (map (λ n. n.id) dsts)
    → rebuild heap c node s dsts hops ≡ ok (c', node')
    → IsCached c' s.src_id (map (λ n. n.id) dsts) node'
      × (node'.ipv4_previous_routing_table ≡ node.ipv4_previous_routing_table)
      × (node'.tables_shared ≡ false)
unfolding rebuild
rebuild-parts heap c node s dsts hops c' node' distinct h =
    let cached = or_empty (get s.src_id c.entry_cache) in
    let ((es, t), made, stored) = >>=-eq-ok (build_from heap s cached dsts hops [] []) _ h in
    let (whole, others) =
      build_from-cached_table heap s cached dsts hops [] [] distinct (λ i m. refl) made in
    (
      λ d found. ground (arith, get-put_self s.src_id es c.entry_cache, whole),
      ground arith,
      ground arith,
    )

module _ (heap : Heap) {live : List Text} (kernel : Kernel live) where
  open kernel use {Fib}

  -- One round of `update` for one node. Before it, the kernel of the node shows the routes of its
  -- current table whose device exists, and `other` routes at other prefixes; the table has one
  -- route for a prefix, and agrees with the cache where the cache has a row. The tables are rotated
  -- and the routes installed, by rebuilding or by the shortcut, without an exception, with distinct
  -- destinations; the new table has one route for a prefix and only devices that exist. Then the
  -- diff of the two tables is computed, its batch brings the kernel to the new table and the
  -- `other` routes, and the new table agrees with the new cache.
  pub install_source_routes-Shows :
      (c : Caches) (node : Node) (s : Source) (dsts : List Node) (hops : Signature)
      → (c' : Caches) (node' : Node) (prev curr : List Key) (other : Prefix → Option Via) (f : Fib)
      → AllDistinct (map (λ n. n.id) dsts)
      → IsCached c s.src_id (map (λ n. n.id) dsts) node
      → table_keys heap node.ipv4_routing_table ≡ ok prev
      → OnePerKey prev
      → ((p : Prefix) → get p (surviving live prev) ≢ none → other p ≡ none)
      → Shows kernel f (surviving live prev) other
      → install_source_routes heap c (equalize node) s dsts (map (λ n. n.id) dsts) hops
        ≡ ok (c', node')
      → table_keys heap node'.ipv4_routing_table ≡ ok curr
      → OnePerKey curr
      → AllLive live curr
      → IsCached c' s.src_id (map (λ n. n.id) dsts) node'
        × (ls : List Line) × (emit_batch_commands heap node'.tables_shared
              node'.ipv4_previous_routing_table node'.ipv4_routing_table
              (some live)
            ≡ ok ls)
        × Shows kernel (run kernel f ls) curr other
  unfolding equalize emit_batch_commands run
  install_source_routes-Shows c node s dsts hops c' node' prev curr other f distinct cached tp op
        apart shows h tc oc l =
      elim (install-cases heap c (equalize node) s dsts (map (λ n. n.id) dsts) hops c' node' h) [
        | inl built ↦
            let (cached', before, unshared) =
              rebuild-parts heap c (equalize node) s dsts hops c' node' distinct built in
            let (ls, made, shown) =
              emit_batch_commands-Shows heap kernel node.ipv4_routing_table node'.ipv4_routing_table
                prev curr other f tp tc op oc l apart shows in
            (cached', ls, rw (unshared, before) made, shown)
        | inr (old, found, reused) ↦
            let kept : node'.ipv4_routing_table ≡ node.ipv4_routing_table =
              ap (λ x. x.1.ipv4_routing_table) (sym reused) ∙ sym (cached old found) in
            let shared : node'.tables_shared ≡ true = ap (λ x. x.1.tables_shared) (sym reused) in
            let unchanged_caches : c' ≡ c = ap (λ x. x.0) (sym reused) in
            let same : prev ≡ curr = ok_keys (sym tp ∙ ap (table_keys heap) (sym kept) ∙ tc) in
            let all_survive : surviving live prev ≡ curr =
              surviving-AllLive live curr prev l (λ k m. rw (← same) m) ∙ same in
            (
              rw (kept, unchanged_caches) cached,
              [],
              rw (shared, emit_batch_commands) refl,
              λ p. shows p ∙ ap (λ ks. or_else (get p ks) (other p)) all_survive,
            )
      ]
