-- ===== src/Lifecycle.antt =====
-- The life cycle of the emulation (services/mixins/network_lifecycle.py), the choice of the routing
-- daemon (services/mixins/routing_mgr.py) and the simulation loop
-- (services/mixins/simulation_loop.py). The launcher, the daemons, the threads and the simulation
-- are outside of the manager: they answer requests.
pub mod Calls
pub mod Emulation
pub mod Loop
pub mod Ordered
pub mod Routing
pub mod Stopped
use satgonetem.Base.{
  ℕ, zero, suc, ◌+◌, ◌-◌, ◌/◌, Bool, true, false, not, ◌&&◌, ◌||◌, Option, none, some, List, [],
  ◌∷◌, ◌++◌, map, filter, Text, codes, ◌==◌, text_eq, list_eq, nat_eq, leb, nat_beq, if◌then◌else◌,
  Result, ok, raise, mem, Exception, value_error, runtime_error, attribute_error,
  zero_division_error, ℤ, pos, negsuc,
}
use satgonetem.Acts.{Act, pure, fail, gets, writes, rescue, ensure, each, when, ◌>>=◌, ◌>>◌}
use satgonetem.Hil.{Hil, HilLink, Machine, is_hil_node, is_hil_link}

-- A link as the life cycle reads it; `satcom_type` is the type of its satcom object, if it has one.
pub record LaunchLink : Type 0 where
  pub link : HilLink
  pub is_active : Bool
  pub satcom_type : Option Text

-- What is asked of the launcher, of a daemon, of a traffic flow, of the thread of the loop, and of
-- the simulation.
pub data Ask : Type 0 where
  start_containers : List Text → List HilLink → Ask
  wire_links : List HilLink → Ask
  close_project execute_actions : Ask
  make_daemon init_daemon remove_daemon update_daemon : Text → Ask
  flow_is_active stop_flow join_flow : ℕ → Ask
  start_thread join_thread : Ask
  update_simulation : Bool → Ask
  set_time : ℕ → Ask
  remove_inter_satellite_link remove_ground_station_link remove_user_terminal_link : HilLink → Ask
  set_ipv4s : Bool → Bool → Ask

-- The answer is read where the code reads one: whether `init` succeeded, and whether a flow is
-- running or pending.
abbrev pub Outside : Type 0 → Type 0
Outside K = Ask → K → K × Result Bool

-- The attributes of `TopologyManager` that these parts read and write. A daemon is named by its
-- routing method. `loop_alive` says that `_sim_thread` is there and alive. Times are in seconds.
pub record TopologyManager (K M : Type 0) : Type 0 where
  pub project_name : Text
  pub satellites : List Text
  pub ground_stations : List Text
  pub links : List LaunchLink
  pub launcher : Bool
  pub hil_manager : Option (Hil M)
  pub status : Bool
  pub gonetem_is_on : Bool
  pub routing : Text
  pub daemon_registry : List Text
  pub routing_daemon : Option Text
  pub routing_initiated : Bool
  pub running : Bool
  pub stop_evt : Bool
  pub loop_alive : Bool
  pub active_flows : List ℕ
  pub has_simulation : Bool
  pub start_time : ℕ
  pub update_time : ℕ
  pub current_time_step : ℤ
  pub outside : K

abbrev pub built_in : List Text
built_in = codes "static" ∷ codes "dynamic-ospf" ∷ codes "dynamic-isis" ∷ codes "sr-mpls" ∷ []

abbrev pub is_some {ℓ} : {A : Type ℓ} → Option A → Bool
is_some none = false
is_some (some a) = true

-- `int((new_time - self.start_time).total_seconds() / self.update_time)`, toward zero
abbrev opposite : ℕ → ℤ
opposite zero = pos 0
opposite (suc n) = negsuc n

abbrev pub steps_since : ℕ → ℕ → ℕ → ℤ
steps_since start new update =
    if leb start new then pos ((new - start) / update) else opposite ((start - new) / update)

module _ {M : Type 0} where
  -- `hil is not None and hil.is_hil_node(...)`, and the same for a link
  abbrev pub node_of_hil : Option (Hil M) → Text → Bool
  node_of_hil none name = false
  node_of_hil (some h) name = is_hil_node h name

  abbrev pub link_of_hil : Option (Hil M) → HilLink → Bool
  link_of_hil none l = false
  link_of_hil (some h) l = is_hil_link h l

module _ {K M : Type 0} where
  abbrev pub with_outside :
      TopologyManager K M → K × Result Bool → TopologyManager K M × Result Bool
  with_outside m (k, r) = (record m { outside = k }, r)

  abbrev pub active_links : TopologyManager K M → List HilLink
  active_links m = map (λ l. l.link) (filter (λ l. l.is_active) m.links)

  abbrev pub launch_nodes : TopologyManager K M → List Text
  launch_nodes m =
      filter (λ n. not (node_of_hil m.hil_manager n)) (m.satellites ++ m.ground_stations)

  abbrev pub launch_links : TopologyManager K M → List HilLink
  launch_links m = filter (λ l. not (link_of_hil m.hil_manager l)) (active_links m)

  abbrev pub hil_links : TopologyManager K M → List HilLink
  hil_links m = filter (link_of_hil m.hil_manager) (active_links m)

  abbrev hil_done :
      TopologyManager K M → Hil M × Result (Unit {0}) → TopologyManager K M × Result (Unit {0})
  hil_done m (h, r) = (record m { hil_manager = some h }, r)

  abbrev pub through_hil :
      TopologyManager K M
      → Option (Hil M)
      → Act (Hil M) (Unit {0})
      → TopologyManager K M × Result (Unit {0})
  through_hil m none act = (m, ok tt)
  through_hil m (some h) act = hil_done m (act h)

  -- `if self.hil_manager is not None: ...`
  unfoldable pub on_hil : Act (Hil M) (Unit {0}) → Act (TopologyManager K M) (Unit {0})
  on_hil act m = through_hil m m.hil_manager act

  abbrev pub launched : TopologyManager K M → TopologyManager K M
  launched m = record m { launcher = true; status = true; gonetem_is_on = true }

  abbrev pub halted : TopologyManager K M → TopologyManager K M
  halted m = record m { stop_evt = true; running = false }

  -- The thread of the loop is at its end.
  abbrev pub loop_ended : TopologyManager K M → TopologyManager K M
  loop_ended m = record m { running = false; loop_alive = false }

  abbrev pub closed : TopologyManager K M → TopologyManager K M
  closed m = record m { gonetem_is_on = false; routing_initiated = false }

  -- `if routing_method: self.routing = routing_method`
  abbrev pub with_method : Text → TopologyManager K M → TopologyManager K M
  with_method [] m = m
  with_method (c ∷ s) m = record m { routing = c ∷ s }

  abbrev pub at_time : ℕ → TopologyManager K M → TopologyManager K M
  at_time new_time m = record m {
    current_time_step = steps_since m.start_time new_time m.update_time;
  }

-- `max(1, int(seconds))`
abbrev pub at_least_one : ℤ → ℕ
at_least_one (pos zero) = 1
at_least_one (pos (suc n)) = suc n
at_least_one (negsuc n) = 1

module _ {K M : Type 0} (answers : Outside K) where
  unfoldable pub ask : Ask → Act (TopologyManager K M) Bool
  ask q m = with_outside m (answers q m.outside)
