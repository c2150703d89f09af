-- ===== src/Lifecycle/Calls.antt =====
-- The calls of the life cycle, the routing manager and the simulation loop, in any order
-- (services/mixins/network_lifecycle.py, routing_mgr.py and simulation_loop.py).
use satgonetem.Base.{ℕ, List, [], ◌∷◌, Text, text_eq, list_eq, nat_eq, ℤ}
use satgonetem.Acts.{Act, pure, ◌>>◌}
use satgonetem.Hil.{Machine}
use satgonetem.Lifecycle.{LaunchLink, Outside, TopologyManager}
use satgonetem.Lifecycle.Loop.{
  stop, start, loop_round, rebuild_routing_for_current_timestep, move_to_time, set_update_time,
  simulate_link_failure,
}
use satgonetem.Lifecycle.Routing.{init_routing, delete_routing}
use satgonetem.Lifecycle.Emulation.{start_gonetem, stop_gonetem, force_stop_gonetem, fast_start}

-- What users of the manager call, and the rounds that the thread of the loop makes.
pub data Call : Type 0 where
  starts_gonetem stops_gonetem force_stops_gonetem deletes_routing starts_loop stops_loop : Call
  rounds rebuilds : Call
  inits_routing fast_starts : Text → Call
  moves_to_time : ℕ → Call
  sets_update_time : ℤ → Call
  fails_links : List LaunchLink → Call

module _ {K M : Type 0} (answers : Outside K) (host : Machine M) where
  -- One call of a user of the manager, or one round of the thread.
  unfoldable pub act_on : Call → Act (TopologyManager K M) (Unit {0})
  unfolding start_gonetem stop_gonetem force_stop_gonetem init_routing delete_routing start stop
      loop_round rebuild_routing_for_current_timestep move_to_time set_update_time
      simulate_link_failure fast_start
  act_on starts_gonetem = start_gonetem answers host
  act_on stops_gonetem = stop_gonetem answers host
  act_on force_stops_gonetem = force_stop_gonetem answers host
  act_on (inits_routing method) = init_routing answers method >> pure tt
  act_on deletes_routing = delete_routing answers >> pure tt
  act_on starts_loop = start answers
  act_on stops_loop = stop answers
  act_on rounds = loop_round answers
  act_on rebuilds = rebuild_routing_for_current_timestep answers
  act_on (moves_to_time t) = move_to_time answers t
  act_on (sets_update_time t) = set_update_time answers t
  act_on (fails_links ls) = simulate_link_failure answers ls
  act_on (fast_starts method) = fast_start answers host method

  -- Calls and rounds, in any order; the caller goes on after an exception.
  unfoldable pub lives : List Call → TopologyManager K M → TopologyManager K M
  unfolding act_on
  lives [] m = m
  lives (c ∷ cs) m = lives cs (act_on c m).0
