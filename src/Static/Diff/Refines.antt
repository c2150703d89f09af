-- ===== src/Static/Diff/Refines.antt =====
-- The batch of a diff brings the kernel from the previous routing table to the current one.
use satgonetem.Base.{
  ◌≡◌, ◌≢◌, sym, ◌∙◌, ap, inl, inr, Bool, true, false, not, ◌&&◌, Option, none, some, List, map,
  Text, mem, get, filter, mem-filter, OnePerKey, mem_of_get, get-ne-none_of_mem, get_of_mem,
  Bool-cases, Option-cases, or_else, arith, text_eq, option_eq,
}
use satgonetem.Static.Diff.{Prefix, Via, Key, del, may_delete, diff_lines, text_pair_eq, key_eq}
use satgonetem.Static.Diff.Kernel.{Kernel, run}
use satgonetem.Static.Diff.Batches.{
  AllLive, run-append, del_other, del_here, rep_other, rep_keep, rep_here,
}

abbrev is_removed : List Text → List Key → List Prefix → Key → Bool
is_removed live curr prefixes k =
    not (mem k curr) && not (mem k.0 prefixes) && may_delete (some live) k

abbrev is_added : List Key → Key → Bool
is_added prev k = not (mem k prev)

-- The previous routes whose device is still there.
abbrev pub surviving : List Text → List Key → List Key
surviving live prev = filter (may_delete (some live)) prev

module _ {live : List Text} (kernel : Kernel live) (prev curr : List Key) (prefixes : List Prefix)
    (one_prev : OnePerKey prev) (one_curr : OnePerKey curr) (live_curr : AllLive live curr)
    (listed : (p : Prefix) (v : Via) → mem (p, v) curr ≡ true → mem p prefixes ≡ true)
    (meant : (p : Prefix) → mem p prefixes ≡ true → get p curr ≢ none) where
  open kernel use {Fib, route}

  kept-AllLive : AllLive live (filter (is_added prev) curr)
  kept-AllLive k m = live_curr k (ground (arith, mem-filter (is_added prev) k curr))

  mem_curr_of_kept : (k : Key) → mem k (filter (is_added prev) curr) ≡ true → mem k curr ≡ true
  mem_curr_of_kept k m = ground (arith, mem-filter (is_added prev) k curr)

  surviving-OnePerKey : OnePerKey (surviving live prev)
  surviving-OnePerKey p v w m n =
      one_prev p v w (ground (arith, mem-filter (may_delete (some live)) (p, v) prev))
        (ground (arith, mem-filter (may_delete (some live)) (p, w) prev))

  removed_none_of_listed :
      (p : Prefix)
      → mem p prefixes ≡ true
      → get p (filter (is_removed live curr prefixes) prev) ≡ none
  removed_none_of_listed p m =
      elim (Option-cases (get p (filter (is_removed live curr prefixes) prev))) [
        | inl gone ↦ gone
        | inr (w, found) ↦
            ground (
              arith,
              mem_of_get p w _ found,
              mem-filter (is_removed live curr prefixes) (p, w) prev,
            )
      ]

  removed_none_of_gone :
      (p : Prefix)
      → get p (surviving live prev) ≡ none
      → get p (filter (is_removed live curr prefixes) prev) ≡ none
  removed_none_of_gone p h =
      elim (Option-cases (get p (filter (is_removed live curr prefixes) prev))) [
        | inl gone ↦ gone
        | inr (w, found) ↦ ground (
          arith,
          mem_of_get p w _ found,
          mem-filter (is_removed live curr prefixes) (p, w) prev,
          mem-filter (may_delete (some live)) (p, w) prev,
          get-ne-none_of_mem p w (surviving live prev),
        )
      ]

  kept_none_of_absent :
      (p : Prefix) → get p curr ≡ none → get p (filter (is_added prev) curr) ≡ none
  kept_none_of_absent p h = elim (Option-cases (get p (filter (is_added prev) curr))) [
    | inl gone ↦ gone
    | inr (w, found) ↦
        absurd (get-ne-none_of_mem p w curr (mem_curr_of_kept (p, w) (mem_of_get p w _ found)) h)
  ]

  -- A prefix that the current table has.
  installs_present :
      (f : Fib) (p : Prefix) (v : Via) (other : Option Via)
      → get p curr ≡ some v
      → route f p ≡ or_else (get p (surviving live prev)) other
      → route (run kernel f (diff_lines prev curr prefixes (some live))) p ≡ some v
  unfolding diff_lines
  installs_present f p v other h inst = rw run-append (elim (Bool-cases (mem (p, v) prev)) [
    | inl old ↦ rep_keep kernel _ _ p v kept-AllLive only (
        del_other kernel _ f p (removed_none_of_listed p (listed p v here))
        ∙ inst
        ∙ ap (λ o. or_else o other)
            (get_of_mem p v _ surviving-OnePerKey (
              ground
                (arith, mem-filter (may_delete (some live)) (p, v) prev, live_curr (p, v) here))))
    | inr new ↦
        rep_here kernel _ _ p v kept-AllLive only
          (ground (arith, mem-filter (is_added prev) (p, v) curr, here))
  ])
    where
      here : mem (p, v) curr ≡ true
      here = mem_of_get p v curr h

      only : (w : Via) → mem (p, w) (filter (is_added prev) curr) ≡ true → w ≡ v
      only w m = one_curr p w v (mem_curr_of_kept (p, w) m) here

  -- A prefix that the current table has not.
  installs_absent :
      (f : Fib) (p : Prefix) (other : Option Via)
      → get p curr ≡ none
      → route f p ≡ or_else (get p (surviving live prev)) other
      → (get p (surviving live prev) ≢ none → other ≡ none)
      → route (run kernel f (diff_lines prev curr prefixes (some live))) p ≡ other
  unfolding diff_lines
  installs_absent f p other h inst clear =
      rw run-append
        (rep_other kernel _ _ p kept-AllLive (kept_none_of_absent p h) ∙ after_deletions)
    where
      unlisted : mem p prefixes ≡ false
      unlisted = elim (Bool-cases (mem p prefixes)) [ inl y ↦ absurd (meant p y h) | inr n ↦ n ]

      after_deletions :
          route (run kernel f (map del (filter (is_removed live curr prefixes) prev))) p ≡ other
      after_deletions = elim (Option-cases (get p (surviving live prev))) [
        | inl gone ↦
            del_other kernel _ f p (removed_none_of_gone p gone)
            ∙ inst
            ∙ ap (λ o. or_else o other) gone
        | inr (v, found) ↦
            del_here kernel _ f p v
              (ground (
                arith,
                unlisted,
                mem_of_get p v _ found,
                mem-filter (may_delete (some live)) (p, v) prev,
                mem-filter (is_removed live curr prefixes) (p, v) prev,
                get-ne-none_of_mem p v curr,
              ))
              (inst ∙ ap (λ o. or_else o other) found)
            ∙ sym (clear (λ e. cc))
      ]

  -- Any prefix.
  pub diff_lines_installs :
      (f : Fib) (p : Prefix) (other : Option Via)
      → route f p ≡ or_else (get p (surviving live prev)) other
      → (get p (surviving live prev) ≢ none → other ≡ none)
      → route (run kernel f (diff_lines prev curr prefixes (some live))) p
        ≡ or_else (get p curr) other
  diff_lines_installs f p other inst clear = elim (Option-cases (get p curr)) [
    | inl gone ↦ installs_absent f p other gone inst clear ∙ sym (ap (λ o. or_else o other) gone)
    | inr (v, found) ↦
        installs_present f p v other found inst ∙ sym (ap (λ o. or_else o other) found)
  ]
