-- ===== src/Controller.antt =====
-- The plane of the controller (services/mixins/controller.py): addresses of the nodes on it, and the
-- link of the host to the switch. Commands on the host and in the containers are outside.
pub mod Distinct
pub mod Rollback
use satgonetem.Base.{
  ℕ, zero, suc, ◌+◌, Bool, true, false, Option, none, some, List, [], ◌∷◌, ◌++◌, Text, codes,
  decimal, left_strip, right_strip, leb, if◌then◌else◌, ℤ, pos, negsuc, Result, ok, raise,
  value_error, runtime_error, Dict, put, text_eq,
}
use satgonetem.Address.{padded, quaddot}
use satgonetem.Acts.{Act, pure, fail, lift, rescue, when, ◌>>=◌, ◌>>◌}
use satgonetem.Launch.Containers.{splitlines}

-- `build_controller_ip`, and `get_management_ip`, which is the same
unfoldable pub build_controller_ip : ℤ → Result Text
build_controller_ip (negsuc n) = raise value_error
build_controller_ip (pos n) =
    if leb n 0x1FFF
    then quaddot
        ((true ∷ true ∷ true ∷ true ∷ true ∷ []) ++ (padded 13 0 ++ (padded 13 n ++ true ∷ [])))
    else raise value_error

-- `get_management_interface`, for an identifier that is not negative
abbrev pub management_interface : ℕ → Text
management_interface n = codes "eth" ++ decimal (50000 + n)

pub record PlaneNode : Type 0 where
  pub name : Text
  pub id : ℕ

-- A command, by its words: on the host, or inside the container of a node. It is answered by its
-- return code and its output.
pub data Command : Type 0 where
  on_host : List Text → Command
  on_node : Text → Text → Command

abbrev pub Shell : Type 0 → Type 0
Shell K = Command → K → K × Result (ℕ × Text)

-- The attributes that name the link of the host.
pub record Plane : Type 0 where
  pub veth_host : Text
  pub veth_peer : Text
  pub bridge : Text
  pub host_ip : Text
  pub subnet_prefix : ℕ

abbrev pub strip : Text → Text
strip s = left_strip (right_strip s)

abbrev pub first_line : List Text → Option Text
first_line [] = none
first_line (l ∷ ls) = some l

-- The first container that `docker ps --filter name=.ovs` lists.
abbrev pub found_container : ℕ × Text → Option Text
found_container (zero, out) = first_line (splitlines (strip out))
found_container (suc n, out) = none

abbrev pub list_containers : Command
list_containers = on_host (
    codes "docker"
    ∷ codes "ps"
    ∷ codes "--filter"
    ∷ codes "name=.ovs"
    ∷ codes "--format"
    ∷ codes "{{.ID}}"
    ∷ [])

-- `sudo ip` and more words
abbrev pub ip_command : List Text → Command
ip_command words = on_host (codes "sudo" ∷ codes "ip" ∷ words)

abbrev pub delete_veth : Plane → Command
delete_veth plane = ip_command (codes "link" ∷ codes "delete" ∷ plane.veth_host ∷ [])

abbrev pub add_address : Plane → Command
add_address plane = ip_command (
    codes "addr"
    ∷ codes "add"
    ∷ (plane.host_ip ++ b'/' ∷ decimal plane.subnet_prefix)
    ∷ codes "dev"
    ∷ plane.veth_host
    ∷ [])

-- The two ends, and the one of the host brought up.
abbrev pub make_veth : Plane → List Command
make_veth plane =
    ip_command (
      codes "link"
      ∷ codes "add"
      ∷ plane.veth_host
      ∷ codes "type"
      ∷ codes "veth"
      ∷ codes "peer"
      ∷ codes "name"
      ∷ plane.veth_peer
      ∷ [])
    ∷ ip_command (codes "link" ∷ codes "set" ∷ plane.veth_host ∷ codes "up" ∷ [])
    ∷ []

module _ {K : Type 0} (shell : Shell K) (plane : Plane) where
  unfoldable pub run_command : Command → Act K (ℕ × Text)
  run_command c k = shell c k

  abbrev pub find_container : Act K (Option Text)
  find_container = run_command list_containers >>= λ r. pure (found_container r)

  abbrev pub inside : Text → List Text → Command
  inside cid words = on_host (codes "docker" ∷ codes "exec" ∷ cid ∷ words)

  abbrev pub remove_port : Option Text → Act K (Unit {0})
  remove_port none = pure tt
  remove_port (some cid) =
      run_command (
        inside cid (
          codes "ovs-vsctl"
          ∷ codes "--if-exists"
          ∷ codes "del-port"
          ∷ plane.bridge
          ∷ plane.veth_peer
          ∷ []))
      >> pure tt

  -- `_remove_controller_veth`
  unfoldable pub remove_controller_veth : Option Text → Act K (Unit {0})
  remove_controller_veth cid = remove_port cid >> run_command (delete_veth plane) >> pure tt

  abbrev pub next_if : ℕ → Act K Bool → Act K Bool
  next_if zero rest = rest
  next_if (suc n) rest = pure false

  -- Commands with `check=True`: false says that one of them failed, and the others did not run.
  abbrev pub run_checked : List Command → Act K Bool
  run_checked [] = pure true
  run_checked (c ∷ cs) = run_command c >>= λ r. next_if r.0 (run_checked cs)

  abbrev pub join_namespace : Text → ℕ × Text → Act K Bool
  join_namespace cid (suc n, out) = pure false
  join_namespace cid (zero, out) = run_checked (
      ip_command (codes "link" ∷ codes "set" ∷ plane.veth_peer ∷ codes "netns" ∷ strip out ∷ [])
      ∷ inside cid (codes "ip" ∷ codes "link" ∷ codes "set" ∷ plane.veth_peer ∷ codes "up" ∷ [])
      ∷ inside cid (
          codes "ovs-vsctl"
          ∷ codes "--may-exist"
          ∷ codes "add-port"
          ∷ plane.bridge
          ∷ plane.veth_peer
          ∷ [])
      ∷ add_address plane
      ∷ [])

  abbrev pub link_up : Text → Bool → Act K Bool
  link_up cid false = pure false
  link_up cid true =
      run_command (
        on_host (codes "docker" ∷ codes "inspect" ∷ codes "-f" ∷ codes "{{.State.Pid}}" ∷ cid ∷ []))
      >>= join_namespace cid

  abbrev pub or_roll_back : Text → Bool → Act K (Unit {0})
  or_roll_back cid true = pure tt
  or_roll_back cid false =
      rescue (remove_controller_veth (some cid)) (λ _. pure tt) >> fail runtime_error

  abbrev pub connect_container : Option Text → Act K (Unit {0})
  connect_container none = fail runtime_error
  connect_container (some cid) = run_checked (make_veth plane) >>= link_up cid >>= or_roll_back cid

  -- `setup_controller_connection`
  unfoldable pub setup_controller_connection : Act K (Unit {0})
  unfolding remove_controller_veth
  setup_controller_connection = find_container >>= connect_container

  -- `cleanup_controller_connection`
  unfoldable pub cleanup_controller_connection : Act K (Unit {0})
  unfolding remove_controller_veth
  cleanup_controller_connection = find_container >>= remove_controller_veth

  -- The addresses given so far, and the nodes that got none.
  abbrev pub Assigned : Type 0
  Assigned = Dict Text Text × List Text

  abbrev pub address_command : PlaneNode → Text → Command
  address_command n ip = on_node n.name (
      codes "ip addr add "
      ++ (ip
          ++ b'/' ∷ (decimal plane.subnet_prefix ++ (codes " dev " ++ management_interface n.id))))

  -- One round of the loop of `setup_controller_addressing`
  abbrev pub address_node : PlaneNode → Assigned → Act K Assigned
  address_node n (ips, failures) =
      rescue
        (lift (build_controller_ip (pos n.id)) >>= λ ip.
          run_command (address_command n ip) >> pure (put n.name ip ips, failures))
        (λ _. pure (ips, failures ++ n.name ∷ []))

  abbrev pub address_nodes : List PlaneNode → Assigned → Act K Assigned
  address_nodes [] a = pure a
  address_nodes (n ∷ ns) a = address_node n a >>= address_nodes ns

  abbrev pub all_assigned : Assigned → Act K (Dict Text Text)
  all_assigned (ips, []) = pure ips
  all_assigned (ips, _ ∷ _) = fail runtime_error

  -- `setup_controller_addressing`, for the satellites and then the ground stations
  unfoldable pub setup_controller_addressing : List PlaneNode → Act K (Dict Text Text)
  unfolding build_controller_ip
  setup_controller_addressing ns = address_nodes ns ([], []) >>= all_assigned
