-- ===== src/Lifecycle/Emulation.antt =====
-- Start and stop of the emulation (services/mixins/network_lifecycle.py).
use satgonetem.Base.{ℕ, true, false, not, ◌||◌, [], Text, text_eq, list_eq, nat_eq}
use satgonetem.Acts.{Act, pure, gets, writes, rescue, ensure, each, when, ◌>>=◌, ◌>>◌}
use satgonetem.Hil.{Hil, HilLink, Machine, is_hil_node, is_hil_link}
use satgonetem.Hil
use satgonetem.Lifecycle.{
  start_containers, wire_links, close_project, flow_is_active, stop_flow, join_flow, set_ipv4s,
  Outside, TopologyManager, launch_nodes, launch_links, hil_links, on_hil, launched, closed, ask,
}
use satgonetem.Lifecycle.Loop.{stop}
use satgonetem.Lifecycle.Routing.{init_routing}

module _ {K M : Type 0} (answers : Outside K) (host : Machine M) where
  -- `start_gonetem`
  unfoldable pub start_gonetem : Act (TopologyManager K M) (Unit {0})
  unfolding Hil.wire_links
  start_gonetem = do
    on ← gets (λ m. m.gonetem_is_on)
    when (not on) (do
      nodes ← gets launch_nodes
      links ← gets launch_links
      hardware ← gets hil_links
      _ ← ask answers (start_containers nodes links)
      _ ← ask answers (wire_links links)
      _ ← on_hil (Hil.wire_links host hardware)
      writes launched tt)

  -- One round of the loop over the flows of `stop_gonetem`
  abbrev pub end_flow : ℕ → Act (TopologyManager K M) (Unit {0})
  end_flow f = do
    active ← ask answers (flow_is_active f)
    when active (do
      _ ← rescue (ask answers (stop_flow f) >> pure tt) (λ _. pure tt)
      ask answers (join_flow f) >> pure tt)

  -- The part that `stop_gonetem` and `force_stop_gonetem` share
  unfoldable pub shut_down : Act (TopologyManager K M) (Unit {0})
  unfolding Hil.teardown_all
  shut_down = do
    _ ← writes (λ m. record m { status = false }) tt
    _ ← on_hil (Hil.teardown_all host)
    there ← gets (λ m. m.launcher)
    _ ← when there (ask answers close_project >> pure tt)
    writes closed tt

  -- `stop_gonetem`
  unfoldable pub stop_gonetem : Act (TopologyManager K M) (Unit {0})
  unfolding stop shut_down
  stop_gonetem = do
    busy ← gets (λ m. m.running || m.loop_alive)
    _ ← when busy (stop answers)
    flows ← gets (λ m. m.active_flows)
    _ ← ensure (each end_flow flows) (writes (λ m. record m { active_flows = [] }) tt)
    shut_down

  -- `force_stop_gonetem`
  unfoldable pub force_stop_gonetem : Act (TopologyManager K M) (Unit {0})
  unfolding shut_down
  force_stop_gonetem = shut_down

  -- `fast_start`, with `set_ip_addresses`
  unfoldable pub fast_start : Text → Act (TopologyManager K M) (Unit {0})
  unfolding start_gonetem init_routing
  fast_start routing_method =
      start_gonetem
      >> ask answers (set_ipv4s true true)
      >> init_routing answers routing_method
      >> pure tt
