-- ===== src/Lifecycle/Routing.antt =====
-- The choice of the routing daemon (services/mixins/routing_mgr.py).
use satgonetem.Base.{
  Bool, true, false, Option, none, some, ◌++◌, Text, text_eq, list_eq, nat_eq, if◌then◌else◌, mem,
}
use satgonetem.Acts.{Act, pure, gets, writes, ◌>>=◌}
use satgonetem.Lifecycle.{
  make_daemon, init_daemon, remove_daemon, Outside, TopologyManager, built_in, with_method, ask,
}

module _ {K M : Type 0} (answers : Outside K) where
  -- What `init_routing` does with a method that has a daemon; the answer is false for -1.0.
  abbrev pub start_daemon : Text → Act (TopologyManager K M) Bool
  start_daemon method = do
    _ ← ask answers (make_daemon method)
    _ ← writes (λ m. record m { routing_daemon = some method }) tt
    success ← ask answers (init_daemon method)
    if success then writes (λ m. record m { routing_initiated = true }) true else pure false

  -- `init_routing`
  unfoldable pub init_routing : Text → Act (TopologyManager K M) Bool
  init_routing routing_method = do
    _ ← writes (with_method routing_method) tt
    method ← gets (λ m. m.routing)
    known ← gets (λ m. mem m.routing (built_in ++ m.daemon_registry))
    if known then start_daemon method else pure false

  abbrev pub drop_daemon : Bool → Option Text → Act (TopologyManager K M) Bool
  drop_daemon false d = pure false
  drop_daemon true none = pure false
  drop_daemon true (some d) = do
    _ ← ask answers (remove_daemon d)
    writes (λ m. record m { routing_initiated = false; routing_daemon = none }) true

  -- `delete_routing`
  unfoldable pub delete_routing : Act (TopologyManager K M) Bool
  delete_routing = do
    initiated ← gets (λ m. m.routing_initiated)
    d ← gets (λ m. m.routing_daemon)
    drop_daemon initiated d
