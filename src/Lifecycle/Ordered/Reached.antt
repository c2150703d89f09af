-- ===== src/Lifecycle/Ordered/Reached.antt =====
-- The flags after any calls (services/mixins/network_lifecycle.py, routing_mgr.py and
-- simulation_loop.py).
use satgonetem.Base.{
  ℕ, Bool, true, false, Option, none, some, List, [], ◌∷◌, Text, ℤ, Dict, text_eq, list_eq, nat_eq,
}
use satgonetem.Acts.Keeps.{Keeps, keeping, writes-Keeps, >>=-Keeps, Keeps-after_writes}
use satgonetem.Hil.{HilLink, Machine}
use satgonetem.Lifecycle.{LaunchLink, Ask, Outside, TopologyManager}
use satgonetem.Lifecycle.Loop.{
  stop, start, loop_round, rebuild_routing_for_current_timestep, move_to_time, set_update_time,
  simulate_link_failure, refresh_daemon, by_type, go_to, count_steps,
}
use satgonetem.Lifecycle.Routing.{init_routing, delete_routing, start_daemon, drop_daemon}
use satgonetem.Lifecycle.Emulation.{
  start_gonetem, stop_gonetem, force_stop_gonetem, fast_start, end_flow, shut_down,
}
use satgonetem.Lifecycle.Calls.{
  Call, starts_gonetem, stops_gonetem, force_stops_gonetem, deletes_routing, starts_loop,
  stops_loop, rounds, rebuilds, inits_routing, fast_starts, moves_to_time, sets_update_time,
  fails_links, act_on, lives,
}
use satgonetem.Lifecycle.Ordered.{Ordered, Always, Inactive, HasDaemon, Plain}
use satgonetem.Lifecycle.Ordered.Rules.{ask-Keeps, wire-Keeps, teardown-Keeps}
use satgonetem.Lifecycle.Ordered.Writes.{
  Ordered-Plain, Within-Plain, launched-Plain, Plain-Inactive, closed-Inactive, halted-Plain,
  started-Plain, alive-Plain, flowless-Plain, loop_ended-Plain, with_method-Plain, daemon-HasDaemon,
  initiated-HasDaemon, undaemoned-Plain, time-Plain, at_time-Plain,
}

module _ {K M : Type 0} (answers : Outside K) (host : Machine M) (hardware : Dict Text Text) where
  start_gonetem-Keeps : Keeps (Plain hardware) (start_gonetem {K = K} answers host)
  unfolding start_gonetem
  start_gonetem-Keeps = search (keeping, ask-Keeps, wire-Keeps, launched-Plain) depth 20

  shut_down-Keeps : Keeps (Plain hardware) (shut_down {K = K} answers host)
  unfolding shut_down
  shut_down-Keeps =
      Keeps-after_writes (λ m. record m { status = false }) tt _ (Plain-Inactive hardware)
        (Within-Plain hardware Inactive)
        (search (keeping, ask-Keeps, teardown-Keeps, closed-Inactive) depth 20)

  stop-Keeps : Keeps (Plain hardware) (stop {M = M} answers)
  unfolding stop
  stop-Keeps = search (keeping, ask-Keeps, halted-Plain, alive-Plain hardware false) depth 20

  end_flow-Keeps : (f : ℕ) → Keeps (Plain hardware) (end_flow {K = K} answers host f)
  end_flow-Keeps f = search (keeping, ask-Keeps) depth 20

  stop_gonetem-Keeps : Keeps (Plain hardware) (stop_gonetem {K = K} answers host)
  unfolding stop_gonetem
  stop_gonetem-Keeps =
      search (keeping, stop-Keeps, end_flow-Keeps, flowless-Plain, shut_down-Keeps) depth 20

  start_daemon-Keeps :
      (method : Text) → Keeps (Plain hardware) (start_daemon {M = M} answers method)
  start_daemon-Keeps method =
      >>=-Keeps _ _ (ask-Keeps answers hardware Always (Ask.make_daemon method)) (λ _.
        Keeps-after_writes (λ m. record m { routing_daemon = some method }) tt _
          (daemon-HasDaemon hardware method) (Within-Plain hardware HasDaemon)
          (search (keeping, ask-Keeps, initiated-HasDaemon) depth 20))

  init_routing-Keeps :
      (method : Text) → Keeps (Plain hardware) (init_routing {M = M} answers method)
  unfolding init_routing
  init_routing-Keeps method = search (keeping, with_method-Plain, start_daemon-Keeps) depth 20

  drop_daemon-Keeps :
      (b : Bool) (d : Option Text) → Keeps (Plain hardware) (drop_daemon {M = M} answers b d)
  drop_daemon-Keeps false d = search keeping
  drop_daemon-Keeps true none = search keeping
  drop_daemon-Keeps true (some d) = search (keeping, ask-Keeps, undaemoned-Plain)

  delete_routing-Keeps : Keeps (Plain hardware) (delete_routing {M = M} answers)
  unfolding delete_routing
  delete_routing-Keeps = search (keeping, drop_daemon-Keeps)

  start-Keeps : Keeps (Plain hardware) (start {M = M} answers)
  unfolding start
  start-Keeps = search (keeping, ask-Keeps, started-Plain, alive-Plain hardware true) depth 20

  loop_round-Keeps : Keeps (Plain hardware) (loop_round {M = M} answers)
  unfolding loop_round
  loop_round-Keeps = search (keeping, ask-Keeps, loop_ended-Plain) depth 20

  refresh_daemon-Keeps :
      (d : Option Text) (b : Bool) → Keeps (Plain hardware) (refresh_daemon {M = M} answers d b)
  refresh_daemon-Keeps none b = search keeping
  refresh_daemon-Keeps (some d) false = search keeping
  refresh_daemon-Keeps (some d) true = search (keeping, ask-Keeps)

  rebuild-Keeps : Keeps (Plain hardware) (rebuild_routing_for_current_timestep {M = M} answers)
  unfolding rebuild_routing_for_current_timestep
  rebuild-Keeps = search (keeping, refresh_daemon-Keeps)

  count_steps-Keeps : (b : Bool) (t : ℕ) → Keeps (Plain hardware) (count_steps {M = M} answers b t)
  count_steps-Keeps true t = search keeping
  count_steps-Keeps false t = search (keeping, at_time-Plain)

  go_to-Keeps : (b : Bool) (t : ℕ) → Keeps (Plain hardware) (go_to {M = M} answers b t)
  go_to-Keeps false t = search keeping
  go_to-Keeps true t = search (keeping, ask-Keeps, count_steps-Keeps, rebuild-Keeps) depth 20

  move_to_time-Keeps : (t : ℕ) → Keeps (Plain hardware) (move_to_time {M = M} answers t)
  unfolding move_to_time
  move_to_time-Keeps t = search (keeping, go_to-Keeps)

  set_update_time-Keeps : (t : ℤ) → Keeps (Plain hardware) (set_update_time {M = M} answers t)
  unfolding set_update_time
  set_update_time-Keeps t = writes-Keeps _ tt (λ m h. time-Plain hardware m _ m.current_time_step h)

  by_type-Keeps :
      (o : Option Text) (l : HilLink) → Keeps (Plain hardware) (by_type {M = M} answers o l)
  by_type-Keeps none l = search keeping
  by_type-Keeps (some type) l = search (keeping, ask-Keeps) depth 20

  simulate_link_failure-Keeps :
      (ls : List LaunchLink) → Keeps (Plain hardware) (simulate_link_failure {M = M} answers ls)
  unfolding simulate_link_failure
  simulate_link_failure-Keeps ls = search (keeping, ask-Keeps, by_type-Keeps) depth 20

  fast_start-Keeps :
      (method : Text) → Keeps (Plain hardware) (fast_start {K = K} answers host method)
  unfolding fast_start
  fast_start-Keeps method =
      search (keeping, ask-Keeps, start_gonetem-Keeps, init_routing-Keeps) depth 20

  act_on-Keeps : (c : Call) → Keeps (Plain hardware) (act_on {K = K} answers host c)
  unfolding act_on force_stop_gonetem
  act_on-Keeps starts_gonetem = start_gonetem-Keeps
  act_on-Keeps stops_gonetem = stop_gonetem-Keeps
  act_on-Keeps force_stops_gonetem = shut_down-Keeps
  act_on-Keeps (inits_routing method) = search (keeping, init_routing-Keeps)
  act_on-Keeps deletes_routing = search (keeping, delete_routing-Keeps)
  act_on-Keeps starts_loop = start-Keeps
  act_on-Keeps stops_loop = stop-Keeps
  act_on-Keeps rounds = loop_round-Keeps
  act_on-Keeps rebuilds = rebuild-Keeps
  act_on-Keeps (moves_to_time t) = move_to_time-Keeps t
  act_on-Keeps (sets_update_time t) = set_update_time-Keeps t
  act_on-Keeps (fails_links ls) = simulate_link_failure-Keeps ls
  act_on-Keeps (fast_starts method) = fast_start-Keeps method

  -- A manager is in order if its topology is active only while the emulation is on, the emulation
  -- is on only with a launcher, routing is marked as initiated only with a daemon, the loop is
  -- marked as running only if it is not asked to stop, and the books of its hardware manager, if it
  -- has one, are in order. Then it is in order again after any calls and rounds of the loop, in any
  -- order, whatever the launcher, the daemons, the threads, the simulation and the machine answer,
  -- and whichever of the calls raise.
  pub lives-Ordered :
      (cs : List Call) (m : TopologyManager K M)
      → Ordered hardware m
      → Ordered hardware (lives answers host cs m)
  unfolding lives
  lives-Ordered [] m h = h
  lives-Ordered (c ∷ cs) m h =
      lives-Ordered cs (act_on answers host c m).0
        ((act_on-Keeps c).holds m (Ordered-Plain hardware m h)).ordered
