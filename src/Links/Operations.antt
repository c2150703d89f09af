-- ===== src/Links/Operations.antt =====
-- Link operations (services/mixins/link_ops.py), the interfaces of a link
-- (services/mixins/interface_mgr.py) and their removal from a node (models/node.py). The threads of
-- a batch take its operations in any order; an operation is one step. A link is named by its key in
-- the dictionary.
pub mod Cleanup
pub mod Order
use satgonetem.Base.{
  ℕ, ◌+◌, Bool, true, false, not, ◌&&◌, ◌||◌, Option, none, some, List, [], ◌∷◌, ◌++◌, map, Text,
  codes, decimal, contains, ◌==◌, text_eq, pair_eq, nat_eq, list_eq, nat_beq, if◌then◌else◌, Result,
  ok, raise, attribute_error, Exception, ◌>>=◌, Dict, get, pop, mem, filter,
}
use satgonetem.Emulator.{Interface, Heap, Node, get_iname}
use satgonetem.Address.{take}
use satgonetem.Address.Assignment.{set_ips_to_nodes}
use satgonetem.Links.{End, Key, Link, build_link_key}
use satgonetem.Links.Sync.{modify}

-- What is asked of the launcher, of the hardware manager, of a container and of the routing daemon.
pub data Action : Type 0 where
  delete_link update_link add_link : Key → Action
  teardown_link update_hil_link setup_link : Key → Action
  configure : ℕ → List Text → Action
  update_routing : List Key → Action

-- The attributes of the topology manager that the operations read and write. Nodes and interfaces
-- are references.
pub record World : Type 0 where
  pub links : Dict Key Link
  pub heap : Heap
  pub nodes : ℕ → Node
  pub next_interface : ℕ
  pub interfaces : List ℕ
  pub interface_version : ℕ
  pub status : Bool
  pub trace : List Action

-- What is submitted to the pool of threads.
pub data Task : Type 0 where
  delete_task update_task add_task : Key → Task

-- The other parts of the program, as they answer: the links of the hardware manager, whether a
-- launcher is set, the exception of an action, if it raises one, and the order in which the threads
-- of the pool execute the operations of a batch.
pub record Surroundings : Type 0 where
  pub is_hil_link : Key → Bool
  pub has_launcher : Bool
  pub failure : Action → Option Exception
  pub order : World → List Task → List Task

abbrev pub in_trace : List Action → World → World
in_trace actions w = record w { trace = w.trace ++ actions }

abbrev pub at_link : Key → (Link → Link) → World → World
at_link k f w = record w { links = modify k f w.links }

abbrev pub unless_failed : Option Exception → Key → World → World
unless_failed none k w = at_link k (λ l. record l { to_delete = false }) w
unless_failed (some x) k w = w

abbrev pub for_each : (Key → World → World) → List Key → World → World
for_each f [] w = w
for_each f (k ∷ ks) w = for_each f ks (f k w)

module _ (around : Surroundings) where
  -- The call that an operation makes, if it makes one.
  abbrev pub chosen : Action → Action → Key → List Action
  chosen hil launch k =
      if around.is_hil_link k then hil ∷ [] else if around.has_launcher then launch ∷ [] else []

  abbrev pub delete_calls : Key → List Action
  delete_calls k = chosen (teardown_link k) (delete_link k) k

  abbrev pub update_calls : Key → List Action
  update_calls k = chosen (update_hil_link k) (update_link k) k

  abbrev pub add_calls : Key → List Action
  add_calls k = chosen (setup_link k) (add_link k) k

  abbrev pub delete_effect : List Action → Key → World → World
  delete_effect [] k w = w
  delete_effect (a ∷ actions) k w = unless_failed (around.failure a) k w

  -- `_execute_link_delete`, `_execute_link_update`, `_execute_link_add`
  unfoldable pub execute_link_delete : Key → World → World
  execute_link_delete k w = delete_effect (delete_calls k) k (in_trace (delete_calls k) w)

  unfoldable pub execute_link_update : Key → World → World
  execute_link_update k w = in_trace (update_calls k) w

  unfoldable pub execute_link_add : Key → World → World
  execute_link_add k w = in_trace (add_calls k) w

  abbrev pub execute_task : Task → World → World
  execute_task (delete_task k) w = execute_link_delete k w
  execute_task (update_task k) w = execute_link_update k w
  execute_task (add_task k) w = execute_link_add k w

  abbrev pub execute_tasks : List Task → World → World
  execute_tasks [] w = w
  execute_tasks (t ∷ ts) w = execute_tasks ts (execute_task t w)

  -- What a batch submits.
  abbrev pub submitted : List Key → List Key → List Key → List Task
  submitted adds updates removes =
      map delete_task removes ++ (map update_task updates ++ map add_task adds)

  -- `bulk_link_operations`, for the lists that are processed. With nothing to do, there is nothing
  -- to skip.
  unfoldable pub bulk_link_operations : List Key → List Key → List Key → World → World
  unfolding execute_link_delete execute_link_update execute_link_add
  bulk_link_operations adds updates removes w =
      if w.status then execute_tasks (around.order w (submitted adds updates removes)) w else w

-- The first interface of a list whose peer has the name. An interface without the attribute raises.
abbrev pub find_peer : Heap → Text → List ℕ → Result (Option ℕ)
find_peer heap name [] = ok none
find_peer heap name (i ∷ is) =
    let rest = find_peer heap name is in
    elim (heap i).peer [
      | none ↦ raise attribute_error
      | some p ↦ if name == (heap p).name then ok (some i) else rest
    ]

-- `list.remove`, by the equality of interfaces
abbrev remove_first : Heap → ℕ → List ℕ → List ℕ
remove_first heap i [] = []
remove_first heap i (j ∷ js) =
    let rest = remove_first heap i js in if (heap j).name == (heap i).name then js else j ∷ rest

abbrev pub without : Heap → Option ℕ → List ℕ → List ℕ
without heap none is = is
without heap (some i) is = remove_first heap i is

abbrev pub at_node : ℕ → (Node → Node) → World → World
at_node n f w = record w { nodes = λ m. if nat_beq m n then f (w.nodes m) else w.nodes m }

-- `Node.remove_interface_connected_to_node`
unfoldable pub remove_interface_connected_to_node : ℕ → ℕ → World → Result World
remove_interface_connected_to_node self peer w = do
  let own = w.nodes self
  found ← find_peer w.heap ((w.nodes peer).name ++ b'.' ∷ decimal own.id) own.interfaces
  ok (at_node self (λ n. record n { interfaces = without w.heap found n.interfaces }) w)

abbrev pub kept : World → Result World → World
kept w (ok v) = v
kept w (raise x) = w

abbrev pub bump : Result World → Result World
bump (ok w) = ok (record w { interface_version = w.interface_version + 1 })
bump (raise x) = raise x

-- `_remove_link_interfaces`: an exception is logged, and leaves what was done before it
unfoldable pub remove_link_interfaces : Key → World → World
unfolding remove_interface_connected_to_node
remove_link_interfaces k w = elim (get k w.links) [
  | none ↦ w
  | some l ↦ elim (remove_interface_connected_to_node l.source.reference l.target.reference w) [
    | raise _ ↦ w
    | ok v ↦
        kept v (bump (remove_interface_connected_to_node l.target.reference l.source.reference v))
  ]
]

-- `intf not in link.peer_interfaces`
abbrev pub is_other : Heap → List ℕ → ℕ → Bool
is_other heap peers i = not (mem (heap i).name (map (λ p. (heap p).name) peers))

-- `_cleanup_removed_links_sequential`. A key that is not there is a KeyError, which is logged.
unfoldable pub cleanup_one : Key → World → Result World
cleanup_one k w = elim (get k w.links) [
  | none ↦ ok w
  | some l ↦ do
    let rest = filter (is_other w.heap l.peer_interfaces) w.interfaces
    key ← build_link_key l.source l.target
    ok (record w { interfaces = rest; links = pop key w.links })
]

unfoldable pub cleanup_removed_links : List Key → World → Result World
unfolding cleanup_one
cleanup_removed_links [] w = ok w
cleanup_removed_links (k ∷ ks) w = do v ← cleanup_one k w; cleanup_removed_links ks v
