-- ===== src/Links/Operations/Order.antt =====
-- The calls that a batch of link operations makes, in any order (services/mixins/link_ops.py).
use satgonetem.Base.{List, [], ◌∷◌, ◌++◌}
use mathlib.Core.List.Permᴰ
use mathlib.Core.List.{Permᴰ}
use satgonetem.Links.{Key}
use satgonetem.Links.Operations.{
  Action, Task, delete_task, update_task, add_task, Surroundings, delete_calls, update_calls,
  add_calls,
}

-- The calls for each key, one after the other.
abbrev pub calls_for : (Key → List Action) → List Key → List Action
calls_for calls [] = []
calls_for calls (k ∷ ks) = calls k ++ calls_for calls ks

module _ (around : Surroundings) where
  -- The call of an operation.
  abbrev pub task_calls : Task → List Action
  task_calls (delete_task k) = delete_calls around k
  task_calls (update_task k) = update_calls around k
  task_calls (add_task k) = add_calls around k

  abbrev all_calls : List Task → List Action
  all_calls [] = []
  all_calls (t ∷ ts) = task_calls t ++ all_calls ts
