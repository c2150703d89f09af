-- ===== src/Static/Diff/Kernel.antt =====
-- The kernel's routing table as the daemon relies on it (`ip -force -batch`): the code is not in
-- the repository, so the table is a parameter with its documented behaviour.
use satgonetem.Base.{
  ◌≡◌, true, ◌&&◌, Option, none, some, List, [], ◌∷◌, Text, mem, ◌==◌, if◌then◌else◌, text_eq,
  option_eq,
}
use satgonetem.Static.Diff.{Prefix, Via, Key, Line, del, replace, text_pair_eq}

-- A table of a namespace with the devices `live`. `replace` writes the route of its prefix, if its
-- device exists; `del` removes the route that it describes, and fails where there is none such,
-- after which `-force` goes on.
pub record Kernel (live : List Text) : Type 1 where
  pub Fib : Type 0
  pub route : Fib → Prefix → Option Via
  pub exec : Fib → Line → Fib
  pub exec_replace :
      (f : Fib) (k : Key) (p : Prefix)
      → mem k.1.1 live ≡ true
      → route (exec f (replace k)) p ≡ (if k.0 == p then some k.1 else route f p)
  pub exec_del :
      (f : Fib) (k : Key) (p : Prefix)
      → route (exec f (del k)) p ≡ (if k.0 == p && route f p == some k.1 then none else route f p)

module _ {live : List Text} (kernel : Kernel live) where
  open kernel use {Fib, exec}

  -- The lines of a batch, one after the other.
  unfoldable pub run : Fib → List Line → Fib
  run f [] = f
  run f (l ∷ ls) = run (exec f l) ls
