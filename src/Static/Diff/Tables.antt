-- ===== src/Static/Diff/Tables.antt =====
-- The diff of two routing tables brings the kernel from the one to the other.
use satgonetem.Base.{
  ◌≡◌, ◌≢◌, refl, sym, ◌∙◌, ap, false, ◌||◌, Option, none, some, List, [], ◌∷◌, map, Text, mem, get,
  put, keys, Dict, mem-keys-put, OnePerKey, get-ne-none_of_mem-map, get-same, OnePerKey-same,
  mem-filter, ◌&&◌, mem-map_keys_of_mem, Result, ok, >>=-eq-ok, map_result, or_else, arith, text_eq,
}
use satgonetem.Emulator.{Heap, RoutingEntry}
use satgonetem.Static.Diff.{
  Prefix, Via, Key, Line, prefix_of, may_delete, entry_key, index_from, diff_lines,
  emit_batch_commands, text_pair_eq, key_eq,
}
use satgonetem.Static.Diff.Kernel.{Kernel, run}
use satgonetem.Static.Diff.Refines.{surviving, diff_lines_installs}
use satgonetem.Static.Diff.Batches.{AllLive}

-- The keys of a table, in its order.
abbrev pub table_keys : Heap → List RoutingEntry → Result (List Key)
table_keys heap = map_result (entry_key heap)

table_keys-cons :
    (heap : Heap) (e : RoutingEntry) (tbl : List RoutingEntry) (ks : List Key)
    → table_keys heap (e ∷ tbl) ≡ ok ks
    → (k : Key) × (rest : List Key) × (entry_key heap e ≡ ok k)
      × (table_keys heap tbl ≡ ok rest)
      × (ks ≡ k ∷ rest)
table_keys-cons heap e tbl ks h =
    let (k, first, more) = >>=-eq-ok (entry_key heap e) _ h in
    let (rest, others, whole) = >>=-eq-ok (table_keys heap tbl) _ more in
    (k, rest, first, others, cc)

module _ (heap : Heap) where
  -- The dictionary of a table has the keys of its entries.
  index_from-keys :
      (tbl : List RoutingEntry) (d : Dict Key RoutingEntry) (ks : List Key)
      → table_keys heap tbl ≡ ok ks
      → (d' : Dict Key RoutingEntry) × (index_from heap d tbl ≡ ok d')
        × ((k : Key) → mem k (keys d') ≡ (mem k (keys d) || mem k ks))
  unfolding index_from
  index_from-keys [] d ks t = (d, refl, λ k. ground arith)
  index_from-keys (e ∷ tbl) d ks t =
      let (k0, rest, first, others, whole) = table_keys-cons heap e tbl ks t in
      let (d', built, has) = index_from-keys tbl (put k0 e d) rest others in
      (d', rw first built, λ k. ground (arith, has k, whole, mem-keys-put k0 k e d))

  map-table_keys :
      (tbl : List RoutingEntry) (ks : List Key)
      → table_keys heap tbl ≡ ok ks
      → map (λ k. k.0) ks ≡ map prefix_of tbl
  unfolding entry_key
  map-table_keys [] ks h = cc
  map-table_keys (e ∷ tbl) ks h =
      let (k0, rest, first, others, whole) = table_keys-cons heap e tbl ks h in
      ground (arith, map-table_keys tbl rest others)

-- What a kernel finds, prefix by prefix: the routes of a table, and `other` routes beside them.
abbrev pub Shows :
    {live : List Text} (kernel : Kernel live)
    → kernel.Fib
    → List Key
    → (Prefix → Option Via)
    → Type 0
Shows kernel f ks other = (p : Prefix) → kernel.route f p ≡ or_else (get p ks) (other p)

abbrev SameKeys : List Key → List Key → Type 0
SameKeys xs ys = (k : Key) → mem k xs ≡ mem k ys

surviving-SameKeys :
    (live : List Text) (xs ys : List Key)
    → SameKeys xs ys
    → SameKeys (surviving live xs) (surviving live ys)
surviving-SameKeys live xs ys same k =
    mem-filter (may_delete (some live)) k xs
    ∙ ap (λ b. b && may_delete (some live) k) (same k)
    ∙ sym (mem-filter (may_delete (some live)) k ys)

surviving-OnePerKey :
    (live : List Text) (ks : List Key) → OnePerKey ks → OnePerKey (surviving live ks)
surviving-OnePerKey live ks one p v w m n =
    one p v w (ground (arith, mem-filter (may_delete (some live)) (p, v) ks))
      (ground (arith, mem-filter (may_delete (some live)) (p, w) ks))

module _ (heap : Heap) {live : List Text} (kernel : Kernel live) where
  open kernel use {Fib, route}

  -- The kernel finds the previous table, less the routes that went away with their devices, and
  -- routes at other prefixes. Each table has one route for a prefix, and the current routes use
  -- devices that exist. Then the diff is computed without an exception, and after its batch the
  -- kernel finds exactly the current table and the other routes.
  pub emit_batch_commands-Shows :
      (prev_tbl curr_tbl : List RoutingEntry) (prev curr : List Key) (other : Prefix → Option Via)
      → (f : Fib) → table_keys heap prev_tbl ≡ ok prev
      → table_keys heap curr_tbl ≡ ok curr
      → OnePerKey prev
      → OnePerKey curr
      → AllLive live curr
      → ((p : Prefix) → get p (surviving live prev) ≢ none → other p ≡ none)
      → Shows kernel f (surviving live prev) other
      → (ls : List Line) × (emit_batch_commands heap false prev_tbl curr_tbl (some live) ≡ ok ls)
        × Shows kernel (run kernel f ls) curr other
  unfolding emit_batch_commands
  emit_batch_commands-Shows prev_tbl curr_tbl prev curr other f tp tc op oc live_curr apart shows =
      let (dc, built_c, has_c) = index_from-keys heap curr_tbl [] curr tc in
      let (dp, built_p, has_p) = index_from-keys heap prev_tbl [] prev tp in
      (
        diff_lines (keys dp) (keys dc) (map prefix_of curr_tbl) (some live),
        rw (built_c, built_p),
        λ p.
            let survive = surviving-SameKeys live (keys dp) prev has_p in
            let same_get =
              get-same p (surviving live (keys dp)) (surviving live prev) survive
                (surviving-OnePerKey live prev op) in
            diff_lines_installs kernel (keys dp) (keys dc) (map prefix_of curr_tbl)
              (OnePerKey-same (keys dp) prev has_p op) (OnePerKey-same (keys dc) curr has_c oc)
              (λ k m. live_curr k (sym (has_c k) ∙ m))
              (λ q v m.
                rw (← map-table_keys heap curr_tbl curr tc)
                  (mem-map_keys_of_mem q v curr (sym (has_c (q, v)) ∙ m)))
              (λ q m gone.
                get-ne-none_of_mem-map q curr (rw (map-table_keys heap curr_tbl curr tc) m)
                  (sym (get-same q (keys dc) curr has_c oc) ∙ gone))
              f p (other p) (shows p ∙ ap (λ o. or_else o (other p)) (sym same_get))
              (λ h. apart p (λ gone. h (same_get ∙ gone)))
            ∙ ap (λ o. or_else o (other p)) (get-same p (keys dc) curr has_c oc),
      )
