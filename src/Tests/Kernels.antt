-- ===== src/Tests/Kernels.antt =====
-- A kernel's routing table as a function, and facts on tables with one route.
use satgonetem.Base.{
  ◌≡◌, refl, subst, true, ◌&&◌, Option, none, some, List, [], ◌∷◌, Text, mem, get, OnePerKey,
  if◌then◌else◌, ◌==◌, or_else, text_eq, option_eq, arith,
}
use satgonetem.Static.Diff.{Prefix, Via, Key, Line, del, replace, text_pair_eq, key_eq}
use satgonetem.Static.Diff.Kernel.{Kernel}
use satgonetem.Static.Diff.Refines.{surviving}
use satgonetem.Static.Diff.Batches.{AllLive}
use satgonetem.Static.Diff.Tables.{Shows}

abbrev pub Table : Type 0
Table = Prefix → Option Via

abbrev pub exec_line : List Text → Table → Line → Table
exec_line live f (replace (p, v)) q = if mem v.1 live then (if p == q then some v else f q) else f q
exec_line live f (del (p, v)) q = if p == q && f q == some v then none else f q

abbrev pub table_kernel : (live : List Text) → Kernel live
table_kernel live = record {
  Fib = Table;
  route = λ f p. f p;
  exec = exec_line live;
  exec_replace = λ f k p h. rw h refl;
  exec_del = λ f k p. refl;
}

pub OnePerKey-single : (k : Key) → OnePerKey (k ∷ [])
OnePerKey-single (p, v) q w x m n =
    ground (arith, text_pair_eq.beq_iff v w, text_pair_eq.beq_iff v x)

pub AllLive-single : (live : List Text) (k : Key) → mem k.1.1 live ≡ true → AllLive live (k ∷ [])
AllLive-single live (p, v) h (q, w) m =
    let same : v ≡ w = (text_pair_eq.beq_iff v w).0 (ground arith) in
    subst (λ x. mem x.1 live ≡ true) same h

-- A table that shows the surviving routes, and nothing else.
pub Shows-itself :
    (live : List Text) (ks : List Key)
    → Shows (table_kernel live) (λ p. get p (surviving live ks)) (surviving live ks) (λ p. none)
Shows-itself live ks p = or_else-none (get p (surviving live ks))
  where
    or_else-none : (o : Option Via) → o ≡ or_else o none
    or_else-none none = refl
    or_else-none (some v) = refl
