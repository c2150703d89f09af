-- ===== src/Tests/Lifecycle.antt =====
-- The life cycle of the emulation at concrete inputs (services/mixins/network_lifecycle.py,
-- routing_mgr.py and simulation_loop.py).
use satgonetem.Base.{
  ℕ, ◌+◌, ◌≡◌, refl, true, false, none, some, List, [], ◌∷◌, Text, codes, ok, raise, value_error,
  pos, Dict,
}
use satgonetem.Acts.{◌>>=◌}
use satgonetem.Acts.Ends.{IsOk}
use satgonetem.Hil.{Hil, Machine, HilLink, new_hil}
use satgonetem.Hil
use satgonetem.Lifecycle.{stop_flow, update_simulation, Outside, TopologyManager, ask, on_hil}
use satgonetem.Lifecycle.Emulation.{stop_gonetem}
use satgonetem.Lifecycle.Calls.{
  Call, fast_starts, deletes_routing, inits_routing, starts_loop, rounds, sets_update_time,
  moves_to_time, lives,
}
use satgonetem.Lifecycle.Ordered.{Ordered}
use satgonetem.Lifecycle.Ordered.Reached.{lives-Ordered}
use satgonetem.Lifecycle.Stopped.{Answers, IsStopped, stop_gonetem_lem}

-- Requests are granted, and counted, but for a step of the simulation and the end of a flow.
unfoldable counted : Outside ℕ
counted (update_simulation b) k = (k + 1, raise value_error)
counted (stop_flow f) k = (k + 1, raise value_error)
counted _ k = (k + 1, ok true)

unfoldable one_link : Machine ℕ
one_link q k = (k + 1, ok (0 ∷ []))

abbrev hardware : Dict Text Text
hardware = (codes "Gnd7", codes "eth1") ∷ []

abbrev hil_link : HilLink
hil_link = record {
  type = codes "GroundStationLink";
  source = record { name = codes "Sat1"; id = 1; container_pid = 411 };
  target = record { name = codes "Gnd7"; id = 7; container_pid = 0 };
  delay = 4;
  peer1_capacity = 0;
}

abbrev fresh : TopologyManager ℕ ℕ
fresh = record {
  project_name = codes "Constellation";
  satellites = codes "Sat1" ∷ codes "Sat2" ∷ [];
  ground_stations = codes "Gnd7" ∷ [];
  links =
      record { link = hil_link; is_active = true; satcom_type = some (codes "GroundStationLink") }
      ∷ [];
  launcher = false;
  hil_manager = some (new_hil hardware 100_000 0);
  status = false;
  gonetem_is_on = false;
  routing = codes "static";
  daemon_registry = [];
  routing_daemon = none;
  routing_initiated = false;
  running = false;
  stop_evt = false;
  loop_alive = false;
  active_flows = 5 ∷ [];
  has_simulation = true;
  start_time = 100;
  update_time = 15;
  current_time_step = pos 0;
  outside = 0;
}

fresh-Ordered : Ordered hardware fresh
fresh-Ordered = record {
  active = λ e. cc;
  launched_if_on = λ e. cc;
  routed = λ e. cc;
  unasked = λ e. refl;
  books = record { hardware_eq = refl; paired = tt; distinct = tt };
}

-- A start, a change of the daemon, a jump in time, and a loop whose first step fails.
abbrev session : List Call
session =
    fast_starts (codes "static")
    ∷ deletes_routing
    ∷ inits_routing (codes "sr-mpls")
    ∷ starts_loop
    ∷ sets_update_time (pos 10)
    ∷ moves_to_time 160
    ∷ rounds
    ∷ starts_loop
    ∷ []

abbrev later : TopologyManager ℕ ℕ
later = lives counted one_link session fresh

later_runs :
    (later.status ≡ true)
    × (later.routing_daemon ≡ some (codes "sr-mpls"))
    × (later.routing_initiated ≡ true)
    × (later.running ≡ true)
    × (later.current_time_step ≡ pos 6)
unfolding lives counted one_link ask on_hil ◌>>=◌ Hil.ask Hil.wire_links Hil.is_hil_link
later_runs = (refl, refl, refl, refl, refl)

lives-Ordered_example : Ordered hardware later
lives-Ordered_example = lives-Ordered counted one_link hardware session fresh fresh-Ordered

counted-Answers : Answers counted
unfolding counted
counted-Answers = record {
  closes = λ k. (true, refl);
  joins = λ k. (true, refl);
  tells = λ f k. (true, refl);
  joins_flow = λ f k. (true, refl);
}

stop_gonetem_lem_example :
    IsOk (stop_gonetem counted one_link later).1 × IsStopped (stop_gonetem counted one_link later).0
stop_gonetem_lem_example =
    stop_gonetem_lem counted counted-Answers one_link hardware later lives-Ordered_example.books
