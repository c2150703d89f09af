-- ===== src/Lifecycle/Ordered.antt =====
-- The flags of the manager in every state that calls lead to (services/mixins/network_lifecycle.py,
-- routing_mgr.py and simulation_loop.py).
pub mod Reached
pub mod Rules
pub mod Writes
use satgonetem.Base.{
  ℕ, ◌≡◌, refl, Bool, true, false, not, ◌||◌, Option, none, some, List, [], ◌∷◌, ◌++◌, Text, ℤ,
  if◌then◌else◌, Result, ok, Dict, arith, mem, text_eq, list_eq, nat_eq, ◌==◌, codes,
}
use satgonetem.Acts.{Act, pure, gets, writes, ◌>>=◌, ◌>>◌}
use satgonetem.Acts.Keeps.{Keeps, keeping, pure-Keeps, writes-Keeps, >>=-Keeps, Keeps-after_writes}
use satgonetem.Hil.{Hil, HilLink, Machine, wires, tears_all_down, perform}
use satgonetem.Hil
use satgonetem.Hil.Books.{Books, perform-Keeps}
use satgonetem.Lifecycle.{
  LaunchLink, Ask, Outside, TopologyManager, is_some, with_outside, through_hil, on_hil, launched,
  halted, loop_ended, closed, with_method, at_time, ask,
}
use satgonetem.Lifecycle.Loop.{
  stop, start, loop_round, rebuild_routing_for_current_timestep, move_to_time, set_update_time,
  simulate_link_failure, refresh_daemon, by_type, go_to, count_steps,
}
use satgonetem.Lifecycle.Routing.{init_routing, delete_routing, start_daemon, drop_daemon}
use satgonetem.Lifecycle.Emulation.{
  start_gonetem, stop_gonetem, force_stop_gonetem, fast_start, end_flow, shut_down,
}
use satgonetem.Lifecycle.Calls.{
  Call, starts_gonetem, stops_gonetem, force_stops_gonetem, deletes_routing, starts_loop,
  stops_loop, rounds, rebuilds, inits_routing, fast_starts, moves_to_time, sets_update_time,
  fails_links, act_on, lives,
}

abbrev pub BooksOf : {M : Type 0} → Dict Text Text → Option (Hil M) → Type 0
BooksOf hardware none = Unit
BooksOf hardware (some h) = Books hardware h

-- The topology is active only while the emulation is on, which has a launcher; routing that is
-- initiated has a daemon; the loop is not asked to stop while it is marked as running; and the
-- books of the hardware manager are in order.
pub record Ordered {K M : Type 0} (hardware : Dict Text Text) (m : TopologyManager K M)
    : Type 0 where
  pub active : m.status ≡ true → m.gonetem_is_on ≡ true
  pub launched_if_on : m.gonetem_is_on ≡ true → m.launcher ≡ true
  pub routed : m.routing_initiated ≡ true → is_some m.routing_daemon ≡ true
  pub unasked : m.running ≡ true → m.stop_evt ≡ false
  pub books : BooksOf hardware m.hil_manager

-- The same, with something that holds of the status and the daemon in between.
pub record Within {K M : Type 0} (E : Bool → Option Text → Type 0) (hardware : Dict Text Text)
    (m : TopologyManager K M) : Type 0 where
  pub ordered : Ordered hardware m
  pub extra : E m.status m.routing_daemon

abbrev pub Always : Bool → Option Text → Type 0
Always status daemon = Unit

abbrev pub Inactive : Bool → Option Text → Type 0
Inactive status daemon = status ≡ false

abbrev pub HasDaemon : Bool → Option Text → Type 0
HasDaemon status daemon = is_some daemon ≡ true

abbrev pub Plain : {K M : Type 0} → Dict Text Text → TopologyManager K M → Type 0
Plain hardware m = Within Always hardware m
