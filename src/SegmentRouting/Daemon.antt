-- ===== src/SegmentRouting/Daemon.antt =====
-- `SRMPLSDaemon` of routing/srmpls_daemon.py: configuration, labels, rebuild, removal. An operation
-- that raises keeps what was written before, so that a result comes with the daemon it leaves.
pub mod CustomPaths
pub mod Lifecycle
pub mod Reached
pub mod Managed
pub mod Allocation
use satgonetem.Base.{
  ℕ, Bool, true, false, not, ◌&&◌, Option, none, some, List, [], ◌∷◌, ◌++◌, map, Text, codes, Dict,
  get, put, values, filter, map_result, Result, ok, raise, ◌>>=◌, ◌>>◌, if◌then◌else◌, nat_eq,
  text_eq,
}
use satgonetem.Emulator.{Heap, Node, get_iname}
use satgonetem.SegmentRouting.Manager.{
  Manager, new_manager, allocate_node_sid, get_node_sid, clear_cache,
}
use satgonetem.SegmentRouting.Entries.{MplsConfig}
use satgonetem.SegmentRouting.Topology.{Paths, Topology}
use satgonetem.SegmentRouting.Routes.{Lfib, build_sr_gs_routes}
use satgonetem.SegmentRouting.Install.{
  Lines, Batches, apply_sr_node_sids_to_satellites, apply_sr_routes_to_ground_stations,
  apply_sr_routes_to_satellites,
}

-- `SRMPLSDaemon`; `sr_graph` says that the attribute is not `None`, and `sent` are the batches that
-- containers were given so far.
pub record Daemon : Type 0 where
  pub label_manager : Option Manager
  pub sr_lfib : Lfib
  pub sr_graph : Bool
  pub mpls_config : Option MplsConfig
  pub prev_sr_gs_routes : Lines
  pub prev_sr_sat_routes : Lines
  pub prev_sr_node_sid_routes : Lines
  pub sent : Batches

abbrev pub Outcome {ℓ} : Type ℓ → Type ℓ
Outcome A = Result A × Daemon

-- `SRMPLSDaemon.__init__`
abbrev pub new_daemon : Daemon
new_daemon = record {
  label_manager = none;
  sr_lfib = [];
  sr_graph = false;
  mpls_config = none;
  prev_sr_gs_routes = [];
  prev_sr_sat_routes = [];
  prev_sr_node_sid_routes = [];
  sent = [];
}

-- `is_initialized`
abbrev pub is_initialized : Daemon → Bool
is_initialized d = elim d.label_manager [ none ↦ false | some m ↦ true ]

abbrev pub manager_sid : Option Manager → ℕ → Option ℕ
manager_sid none node_id = none
manager_sid (some m) node_id = get_node_sid m node_id

-- `SRMPLSDaemon.get_node_sid`
unfoldable pub daemon_node_sid : Daemon → ℕ → Option ℕ
daemon_node_sid d node_id = manager_sid d.label_manager node_id

abbrev default_config : MplsConfig
default_config = record {
  enabled = true;
  label_range_start = 16;
  label_range_end = 1048575;
  use_ldp = false;
  use_php = false;
  ttl = 64;
  use_sr = true;
  sr_node_sid_base = 16000;
}

abbrev config_or_default : Option MplsConfig → MplsConfig
config_or_default none = default_config
config_or_default (some c) = c

-- `_configure_mpls`
unfoldable pub configure_mpls : Daemon → Daemon
configure_mpls d = record d {
  mpls_config = some (record (config_or_default d.mpls_config) { enabled = true });
}

abbrev pub use_php : Daemon → Bool
use_php d = elim d.mpls_config [ none ↦ false | some c ↦ c.use_php ]

-- `sr_base`
abbrev pub sr_base : Daemon → ℕ
sr_base d = elim d.mpls_config [ none ↦ 16000 | some c ↦ c.sr_node_sid_base ]

-- The loops of `_init_sr_mpls`; labels given before an exception stay.
unfoldable pub allocate_all : Manager → Dict ℕ Node → Result (Unit {0}) × Manager
unfolding allocate_node_sid
allocate_all m [] = (ok tt, m)
allocate_all m ((id, n) ∷ nodes) = elim (allocate_node_sid m id n.name) [
  | raise x ↦ (raise x, m)
  | ok (sid, m') ↦ allocate_all m' nodes
]

-- `_init_sr_mpls`
unfoldable pub init_sr_mpls : Topology → Daemon → Outcome (Unit {0})
unfolding allocate_all new_manager
init_sr_mpls t d =
    let (r, m) =
      allocate_all (new_manager (sr_base d) 100000) (t.satellites ++ t.ground_stations) in
    (r, record d { label_manager = some m })

abbrev input_line : Text → Text
input_line name = codes "sysctl -w net.mpls.conf." ++ name ++ codes ".input=1"

-- the commands of `_enable_mpls`
unfoldable pub enable_commands : Heap → Node → Result (List Text)
enable_commands heap n = do
  names ← map_result (λ r. get_iname (heap r)) n.interfaces
  ok (
      codes "sysctl -w net.mpls.platform_labels=1048575"
      ∷ codes "sysctl -w net.mpls.conf.lo.input=1"
      ∷ map input_line names)

abbrev enable_batch : Heap → Node → Batches
unfolding enable_commands
enable_batch heap n = elim (enable_commands heap n) [
  | raise x ↦ []
  | ok commands ↦ if n.container then (n.id, commands) ∷ [] else []
]

-- `_enable_mpls_on_all_nodes`; what fails on a node is logged.
unfoldable pub enable_batches : Heap → List Node → Batches
unfolding enable_commands
enable_batches heap [] = []
enable_batches heap (n ∷ ns) = enable_batch heap n ++ enable_batches heap ns

abbrev all_nodes : Topology → List Node
all_nodes t = values t.satellites ++ values t.ground_stations

module _ (executes : ℕ → List Text → Bool) (t : Topology) where
  unfoldable pub install_satellite_part : Manager → Daemon → Outcome (Unit {0})
  unfolding apply_sr_routes_to_satellites
  install_satellite_part m d =
      elim (apply_sr_routes_to_satellites executes t m d.sr_lfib (d.prev_sr_sat_routes, d.sent)) [
        | raise x ↦ (raise x, d)
        | ok (prev, sent) ↦ (ok tt, record d { prev_sr_sat_routes = prev; sent = sent })
      ]

  unfoldable pub install_gs_part : Manager → Daemon → Outcome (Unit {0})
  unfolding apply_sr_routes_to_ground_stations install_satellite_part
  install_gs_part m d =
      elim (apply_sr_routes_to_ground_stations executes t m d.sr_lfib
        (d.prev_sr_gs_routes, d.sent)) [
          | raise x ↦ (raise x, d)
          | ok (prev, sent) ↦
              install_satellite_part m (record d { prev_sr_gs_routes = prev; sent = sent })
        ]

  -- `_apply_sr_mpls_routes`, with a manager and a graph at hand
  unfoldable pub apply_sr_mpls_routes : Bool → Manager → Daemon → Outcome (Unit {0})
  unfolding apply_sr_node_sids_to_satellites install_gs_part enable_batches
  apply_sr_mpls_routes init_flag m d =
      let enabled = d.sent ++ (if init_flag then enable_batches t.heap (all_nodes t) else []) in
      elim (apply_sr_node_sids_to_satellites executes t m (d.prev_sr_node_sid_routes, enabled)) [
        | raise x ↦ (raise x, record d { sent = enabled })
        | ok (prev, sent) ↦
            install_gs_part m (record d { prev_sr_node_sid_routes = prev; sent = sent })
      ]

abbrev forget_lines : Daemon → Daemon
forget_lines d = record d {
  prev_sr_gs_routes = [];
  prev_sr_sat_routes = [];
  prev_sr_node_sid_routes = [];
}
