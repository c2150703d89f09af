-- ===== src/Static/Diff/Batches.antt =====
-- What a batch of deletions, and one of replacements, does to a prefix of the kernel.
use satgonetem.Base.{
  ◌≡◌, refl, ◌∙◌, inl, inr, true, ◌&&◌, none, some, List, [], ◌∷◌, ◌++◌, map, Text, mem, get, ◌==◌,
  Bool-cases, arith, text_eq, option_eq, ==_refl,
}
use satgonetem.Static.Diff.{Prefix, Via, Key, Line, del, replace, text_pair_eq, key_eq}
use satgonetem.Static.Diff.Kernel.{Kernel, run}

abbrev pub AllLive : List Text → List Key → Type 0
AllLive live ks = (k : Key) → mem k ks ≡ true → mem k.1.1 live ≡ true

module _ {live : List Text} (kernel : Kernel live) where
  open kernel use {Fib, route, exec, exec_replace, exec_del}

  pub run-append :
      (f : Fib) (a b : List Line) → run kernel f (a ++ b) ≡ run kernel (run kernel f a) b
  unfolding run
  run-append f [] b = refl
  run-append f (l ∷ a) b = run-append (exec f l) a b

  del_none :
      (ks : List Key) (f : Fib) (p : Prefix)
      → route f p ≡ none
      → route (run kernel f (map del ks)) p ≡ none
  unfolding run
  del_none [] f p h = h
  del_none (k ∷ ks) f p h = del_none ks (exec f (del k)) p (ground (arith, exec_del f k p))

  pub del_other :
      (ks : List Key) (f : Fib) (p : Prefix)
      → get p ks ≡ none
      → route (run kernel f (map del ks)) p ≡ route f p
  unfolding run
  del_other [] f p h = refl
  del_other ((q, v) ∷ ks) f p h =
      del_other ks (exec f (del (q, v))) p (ground arith) ∙ ground (arith, exec_del f (q, v) p)

  pub del_here :
      (ks : List Key) (f : Fib) (p : Prefix) (v : Via)
      → mem (p, v) ks ≡ true
      → route f p ≡ some v
      → route (run kernel f (map del ks)) p ≡ none
  unfolding run
  del_here [] f p v m h = ground arith
  del_here ((q, w) ∷ ks) f p v m h = elim (Bool-cases (q == p && w == v)) [
    | inl y ↦
        del_none ks (exec f (del (q, w))) p
          (ground (arith, exec_del f (q, w) p, text_pair_eq.beq_iff v w, text_pair_eq.beq_iff w v))
    | inr n ↦
        del_here ks (exec f (del (q, w))) p v (ground arith)
          (ground (arith, exec_del f (q, w) p, text_pair_eq.beq_iff v w, text_pair_eq.beq_iff w v))
  ]

  pub rep_other :
      (ks : List Key) (f : Fib) (p : Prefix)
      → AllLive live ks
      → get p ks ≡ none
      → route (run kernel f (map replace ks)) p ≡ route f p
  unfolding run
  rep_other [] f p l h = refl
  rep_other ((q, w) ∷ ks) f p l h =
      rep_other ks (exec f (replace (q, w))) p (λ k m. l k (ground arith)) (ground arith)
      ∙ ground (arith, exec_replace f (q, w) p, l (q, w), ==_refl q, ==_refl w)

  pub rep_keep :
      (ks : List Key) (f : Fib) (p : Prefix) (v : Via)
      → AllLive live ks
      → ((w : Via) → mem (p, w) ks ≡ true → w ≡ v)
      → route f p ≡ some v
      → route (run kernel f (map replace ks)) p ≡ some v
  unfolding run
  rep_keep [] f p v l one h = h
  rep_keep ((q, w) ∷ ks) f p v l one h =
      rep_keep ks (exec f (replace (q, w))) p v (λ k m. l k (ground arith))
        (λ u m. one u (ground arith))
        (ground (arith, exec_replace f (q, w) p, l (q, w), one w, ==_refl q, ==_refl w))

  pub rep_here :
      (ks : List Key) (f : Fib) (p : Prefix) (v : Via)
      → AllLive live ks
      → ((w : Via) → mem (p, w) ks ≡ true → w ≡ v)
      → mem (p, v) ks ≡ true
      → route (run kernel f (map replace ks)) p ≡ some v
  unfolding run
  rep_here [] f p v l one m = ground arith
  rep_here ((q, w) ∷ ks) f p v l one m = elim (Bool-cases (q == p && w == v)) [
    | inl y ↦
        rep_keep ks (exec f (replace (q, w))) p v (λ k m'. l k (ground arith))
          (λ u m'. one u (ground arith))
          (ground (
            arith,
            exec_replace f (q, w) p,
            l (q, w),
            ==_refl q,
            ==_refl w,
            text_pair_eq.beq_iff w v,
          ))
    | inr n ↦
        rep_here ks (exec f (replace (q, w))) p v (λ k m'. l k (ground arith))
          (λ u m'. one u (ground arith)) (ground arith)
  ]
