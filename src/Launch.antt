-- ===== src/Launch.antt =====
-- The launcher of the emulation (launchers/gonetem_launcher.py), and what it asks for. The GoNetEm server, Docker and the callback of the caller are outside: they
-- answer orders.
pub mod Containers
pub mod Links
pub mod Projects
pub mod Rules
pub mod Starts
pub mod Listing
use satgonetem.Base.{
  max, ℕ, zero, suc, ◌+◌, ◌*◌, ◌/◌, Bool, true, false, not, ◌&&◌, Option, none, some, List, [], ◌∷◌,
  ◌++◌, Text, codes, decimal, ◌==◌, text_eq, ltb, nat_beq, if◌then◌else◌, Result, ok, raise,
  Exception, runtime_error,
}
use satgonetem.Acts.{Act, pure, fail, gets, writes, rescue, ensure, each, when, ◌>>=◌, ◌>>◌}
use satgonetem.Launch.Containers.{parse_project_containers}

-- A link as the launcher reads it. `delay` is `int(link.delay)`; `loss` stands for a float.
pub record WireLink : Type 0 where
  pub source_name : Text
  pub source_id : ℕ
  pub target_name : Text
  pub target_id : ℕ
  pub type : Text
  pub delay : ℕ
  pub loss : ℕ
  pub jitter : ℕ
  pub peer1_capacity : ℕ
  pub peer2_capacity : ℕ
  pub capacity : ℕ
  pub default_capacity_kbps : ℕ
  pub use_budget : Bool

-- `netem_pb2.LinkConfig` and its `QoSConfig`; `buffer` stands for a float.
pub record Qos : Type 0 where
  pub delay : ℕ
  pub rate : ℕ
  pub loss : ℕ
  pub jitter : ℕ
  pub buffer : ℕ
  pub burst : ℕ

pub record LinkConfig : Type 0 where
  pub peer1 : Text
  pub peer2 : Text
  pub peer1qos : Qos
  pub peer2qos : Qos

-- `TopologyRunMsg`, and `ProjectCloseMsg`, as far as the code reads them
pub data Message : Type 0 where
  node_count link_count : ℕ → Message
  node_start link_setup node_loadconfig other : Message

pub data Closing : Type 0 where
  closing_count : ℕ → Closing
  node_close other_close : Closing

pub data Order : Type 0 where
  open_channel close_channel get_version write_project remove_file : Order
  project_open : Text → Order
  topology_run project_close : Text → Order
  link_update link_add link_del : Text → LinkConfig → Order
  docker_ps : Order
  docker_stop docker_rm : Text → Order
  attach_containers : Text → Order
  progress_cb : Text → ℕ → ℕ → Order

-- What comes back: an identifier, the messages of a stream and the exception that ends it, if one
-- does, or the return code of a process with its output.
pub data Reply : Type 0 where
  nothing : Reply
  id_of_project : Text → Reply
  messages : List Message → Option Exception → Reply
  closings : List Closing → Option Exception → Reply
  process : ℕ → Text → Reply

abbrev pub Server : Type 0 → Type 0
Server K = Order → K → K × Result Reply

-- `GoNetEmLauncher`. `request` has the identifier of the project; `project_id` is what is set on the
-- topology manager.
pub record Launcher (K : Type 0) : Type 0 where
  pub project_name : Text
  pub isl_capacity_kbps : ℕ
  pub gnd_capacity_kbps : ℕ
  pub ground_object_capacity_kbps : ℕ
  pub channel : Bool
  pub client : Bool
  pub request : Option Text
  pub project_id : Option Text
  pub outside : K

abbrev pub or_number : ℕ → ℕ → ℕ
or_number zero b = b
or_number (suc a) b = suc a

-- `_tbf_qos`, for the burst; the second value is a float
abbrev pub tbf_burst : ℕ → ℕ
tbf_burst zero = 0
tbf_burst (suc r) = suc r * 125 / 250 + 1514

abbrev pub is_open : Bool → Option Text → Option Text
is_open true r = r
is_open false r = none

module _ {K : Type 0} where
  abbrev pub default_capacity : Launcher K → Text → ℕ
  default_capacity s type =
      if type == codes "GroundStationLink"
      then s.gnd_capacity_kbps
      else if type == codes "GroundObjectLink"
      then s.ground_object_capacity_kbps
      else s.isl_capacity_kbps

  -- `_link_capacities_for`
  unfoldable pub link_capacities_for : Launcher K → WireLink → ℕ × ℕ
  link_capacities_for s l =
      let usual = or_number l.capacity (default_capacity s l.type) in
      (or_number l.peer1_capacity usual, or_number l.peer2_capacity usual)

  abbrev pub with_outside : Launcher K → K × Result Reply → Launcher K × Result Reply
  with_outside s (k, r) = (record s { outside = k }, r)

  -- `_client` and `_request`, unless one of them is `None`
  abbrev pub open_request : Launcher K → Option Text
  open_request s = is_open s.client s.request

  abbrev pub no_transport : Launcher K → Launcher K
  no_transport s = record s { channel = false; client = false }

-- The counters of `start_containers`.
pub record Progress : Type 0 where
  pub nodes : ℕ
  pub links : ℕ
  pub started : ℕ
  pub set_up : ℕ
  pub configured : ℕ

module _ {K : Type 0} (server : Server K) where
  unfoldable pub ask : Order → Act (Launcher K) Reply
  ask q s = with_outside s (server q s.outside)
