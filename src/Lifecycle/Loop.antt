-- ===== src/Lifecycle/Loop.antt =====
-- The simulation loop (services/mixins/simulation_loop.py).
use satgonetem.Base.{
  ℕ, Bool, true, false, not, Option, none, some, List, [], Text, codes, ◌==◌, text_eq, list_eq,
  nat_eq, nat_beq, if◌then◌else◌, value_error, runtime_error, attribute_error, zero_division_error,
  ℤ,
}
use satgonetem.Acts.{Act, pure, fail, gets, writes, rescue, each, when, ◌>>=◌, ◌>>◌}
use satgonetem.Hil.{HilLink}
use satgonetem.Lifecycle.{
  loop_ended, LaunchLink, update_daemon, start_thread, join_thread, update_simulation, set_time,
  execute_actions, remove_inter_satellite_link, remove_ground_station_link,
  remove_user_terminal_link, Outside, TopologyManager, halted, at_time, at_least_one, ask,
}

module _ {K M : Type 0} (answers : Outside K) where
  -- `stop`
  unfoldable pub stop : Act (TopologyManager K M) (Unit {0})
  stop = do
    _ ← writes halted tt
    alive ← gets (λ m. m.loop_alive)
    when alive (ask answers join_thread >> writes (λ m. record m { loop_alive = false }) tt)

  -- `start`
  unfoldable pub start : Act (TopologyManager K M) (Unit {0})
  start = do
    running ← gets (λ m. m.running)
    nameless ← gets (λ m. m.project_name == [])
    when (not running) (
        if nameless then fail runtime_error else (do
          _ ← writes (λ m. record m { stop_evt = false; running = true }) tt
          _ ← ask answers start_thread
          writes (λ m. record m { loop_alive = true }) tt))

  -- One round of `_loop`, if the thread is there. An exception ends the thread.
  unfoldable pub loop_round : Act (TopologyManager K M) (Unit {0})
  loop_round = do
    alive ← gets (λ m. m.loop_alive)
    asked ← gets (λ m. m.stop_evt)
    when alive (
        if asked
        then writes loop_ended tt
        else rescue (ask answers (update_simulation true) >> pure tt) (λ _. writes loop_ended tt))

  abbrev pub refresh_daemon : Option Text → Bool → Act (TopologyManager K M) (Unit {0})
  refresh_daemon none active = pure tt
  refresh_daemon (some d) false = pure tt
  refresh_daemon (some d) true = ask answers (update_daemon d) >> pure tt

  -- `rebuild_routing_for_current_timestep`
  unfoldable pub rebuild_routing_for_current_timestep : Act (TopologyManager K M) (Unit {0})
  rebuild_routing_for_current_timestep = do
    d ← gets (λ m. m.routing_daemon)
    active ← gets (λ m. m.status)
    refresh_daemon d active

  abbrev pub count_steps : Bool → ℕ → Act (TopologyManager K M) (Unit {0})
  count_steps true new_time = fail zero_division_error
  count_steps false new_time = writes (at_time new_time) tt

  abbrev pub go_to : Bool → ℕ → Act (TopologyManager K M) (Unit {0})
  go_to false new_time = fail value_error
  go_to true new_time = do
    _ ← ask answers (set_time new_time)
    _ ← ask answers execute_actions
    timeless ← gets (λ m. nat_beq m.update_time 0)
    _ ← count_steps timeless new_time
    rebuild_routing_for_current_timestep

  -- `move_to_time`
  unfoldable pub move_to_time : ℕ → Act (TopologyManager K M) (Unit {0})
  unfolding rebuild_routing_for_current_timestep
  move_to_time new_time = do there ← gets (λ m. m.has_simulation); go_to there new_time

  -- `set_update_time`
  unfoldable pub set_update_time : ℤ → Act (TopologyManager K M) (Unit {0})
  set_update_time seconds = writes (λ m. record m { update_time = at_least_one seconds }) tt

  abbrev pub by_type : Option Text → HilLink → Act (TopologyManager K M) (Unit {0})
  by_type none l = fail attribute_error
  by_type (some type) l =
      if type == codes "InterSatelliteLink"
      then ask answers (remove_inter_satellite_link l) >> pure tt
      else if type == codes "GroundStationLink"
      then ask answers (remove_ground_station_link l) >> pure tt
      else if type == codes "UserTerminalLink"
      then ask answers (remove_user_terminal_link l) >> pure tt
      else fail attribute_error

  -- `simulate_link_failure`
  unfoldable pub simulate_link_failure : List LaunchLink → Act (TopologyManager K M) (Unit {0})
  simulate_link_failure failed =
      each (λ l. by_type l.satcom_type l.link) failed
      >> ask answers (update_simulation false)
      >> pure tt
