-- ===== src/Hil.antt =====
-- The hardware-in-the-loop manager (launchers/hil_manager.py): ground stations that are physical
-- hardware, each behind a bridge on the host. The machine, with its network namespaces, is a
-- parameter: it answers requests.
pub mod Books
pub mod Emptied
pub mod Release
use satgonetem.Base.{
  max, ℕ, zero, suc, ◌+◌, ◌*◌, ◌/◌, ◌%◌, Bool, true, false, not, ◌&&◌, ◌||◌, Option, none, some,
  List, [], ◌∷◌, ◌++◌, Text, codes, decimal, ◌==◌, text_eq, list_eq, nat_eq, ltb, nat_beq,
  if◌then◌else◌, Result, ok, raise, Exception, runtime_error, key_error, index_error, or_raise,
  Dict, get, put, pop, keys,
}
use satgonetem.Acts.{
  Act, pure, fail, lift, gets, writes, rescue, rescue_runtime_error, ensure, each, when, ◌>>=◌,
  ◌>>◌,
}

-- What is asked of the machine: network namespaces by `setns`, links by `IPRoute`, and commands run
-- inside the namespace of a process.
pub data Request : Type 0 where
  save_namespace leave_namespace : Request
  enter_namespace : ℕ → Request
  add_veth : Text → Text → Request
  add_bridge : Text → Request
  get_link : Text → Request
  set_up : ℕ → Request
  set_master : ℕ → ℕ → Request
  delete_link : ℕ → Request
  run_tc : ℕ → List Text → Request
  delete_inside : ℕ → Text → Request

-- `get_link` is answered by the indexes of the links of a name, `run_tc` and `delete_inside` by the
-- return code of the command, the others by nothing. `enter_namespace` raises where `setns` fails.
abbrev pub Machine : Type 0 → Type 0
Machine K = Request → K → K × Result (List ℕ)

-- `HILManager`: its attributes, and the machine it works on.
pub record Hil (K : Type 0) : Type 0 where
  pub gnd_hardware_map : Dict Text Text
  pub gnd_capacity_kbps : ℕ
  pub hil_bridges : Dict Text Text
  pub hil_veths : Dict Text Text
  pub machine : K

-- `HILManager.__init__`
abbrev pub new_hil : {K : Type 0} → Dict Text Text → ℕ → K → Hil K
new_hil hardware capacity k = record {
  gnd_hardware_map = hardware;
  gnd_capacity_kbps = capacity;
  hil_bridges = [];
  hil_veths = [];
  machine = k;
}

-- An end of a link; `container_pid` is 0 where the attribute is missing or `None`.
pub record Station : Type 0 where
  pub name : Text
  pub id : ℕ
  pub container_pid : ℕ

-- What the manager reads of a link; `delay` is `int(link.delay)`.
pub record HilLink : Type 0 where
  pub type : Text
  pub source : Station
  pub target : Station
  pub delay : ℕ
  pub peer1_capacity : ℕ

abbrev pub has_hardware : Text → Dict Text Text → Bool
has_hardware name [] = false
has_hardware name ((n, w) ∷ d) = n == name || has_hardware name d

abbrev pub sat_iface : ℕ → Text
sat_iface gnd_id = codes "eth" ++ decimal gnd_id

abbrev pub host_veth : ℕ → Text
host_veth gnd_id = codes "hil" ++ decimal gnd_id

abbrev pub bridge_name : ℕ → Text
bridge_name gnd_id = codes "brhil" ++ decimal gnd_id

abbrev three_digits : ℕ → Text
three_digits n = (48 + n / 100 % 10) ∷ (48 + n / 10 % 10) ∷ (48 + n % 10) ∷ []

-- `f"{max(rate_kbps / 1000, 0.001):.3f}"`, which is exact for the rates of links
abbrev pub rate_text : ℕ → Text
rate_text kbps = let r = max kbps 1 in decimal (r / 1000) ++ b'.' ∷ three_digits (r % 1000)

abbrev pub burst : ℕ → ℕ → ℕ
burst rate_kbps delay_ms = max (rate_kbps * delay_ms / 8) 1500

-- The two commands of `_apply_qos`, with `add`, and of `update_link`, with `change`.
abbrev pub qos_commands : Text → ℕ → ℕ → ℕ → List Text
qos_commands verb gnd_id delay_ms rate_kbps =
    let dev = codes "qdisc " ++ (verb ++ (codes " dev " ++ sat_iface gnd_id)) in
    let bytes = decimal (burst rate_kbps delay_ms) ++ codes "b" in
    (dev ++ (codes " root handle 1: netem delay " ++ (decimal delay_ms ++ codes "ms")))
    ∷ (dev
        ++ (codes " parent 1:1 handle 10: tbf rate "
            ++ (rate_text rate_kbps
                ++ (codes "mbit burst " ++ (bytes ++ (codes " limit " ++ bytes))))))
    ∷ []

-- `is_hil_node`
unfoldable pub is_hil_node : {K : Type 0} → Hil K → Text → Bool
is_hil_node h name = has_hardware name h.gnd_hardware_map

-- `is_hil_link`
unfoldable pub is_hil_link : {K : Type 0} → Hil K → HilLink → Bool
is_hil_link h l =
    l.type == codes "GroundStationLink"
    && (has_hardware l.source.name h.gnd_hardware_map
        || has_hardware l.target.name h.gnd_hardware_map)

-- `_get_hil_gnd` and `_get_sat`
abbrev pub hil_gnd : {K : Type 0} → Hil K → HilLink → Station
hil_gnd h l = if has_hardware l.target.name h.gnd_hardware_map then l.target else l.source

abbrev pub hil_sat : {K : Type 0} → Hil K → HilLink → Station
hil_sat h l = if has_hardware l.target.name h.gnd_hardware_map then l.source else l.target

-- `_link_capacity_kbps`
abbrev pub link_capacity_kbps : {K : Type 0} → Hil K → HilLink → ℕ
link_capacity_kbps h l =
    if nat_beq l.peer1_capacity 0 then h.gnd_capacity_kbps else l.peer1_capacity

-- The calls that the topology manager makes.
pub data Call : Type 0 where
  sets_up tears_down updates : HilLink → Call
  wires : List HilLink → Call
  tears_all_down : Call

-- `lnks[0]["index"]`
abbrev pub first_index : List ℕ → Result ℕ
first_index [] = raise index_error
first_index (i ∷ is) = ok i

module _ {K : Type 0} where
  abbrev pub with_machine : Hil K → K × Result (List ℕ) → Hil K × Result (List ℕ)
  with_machine h (k, r) = (record h { machine = k }, r)

  abbrev pub with_bridge : Text → ℕ → Hil K → Hil K
  with_bridge gnd_name gnd_id h = record h {
    hil_bridges = put gnd_name (bridge_name gnd_id) h.hil_bridges;
    hil_veths = put gnd_name (host_veth gnd_id) h.hil_veths;
  }

  abbrev pub without_bridge : Text → Hil K → Hil K
  without_bridge name h = record h {
    hil_bridges = pop name h.hil_bridges;
    hil_veths = pop name h.hil_veths;
  }

  abbrev pub hardware_of : Text → Hil K → Result Text
  hardware_of gnd_name h = or_raise (get gnd_name h.gnd_hardware_map) key_error

module _ {K : Type 0} (host : Machine K) where
  unfoldable pub ask : Request → Act (Hil K) (List ℕ)
  ask q h = with_machine h (host q h.machine)

  -- `if lnks: ipr.link("set", index=lnks[0]["index"], state="up")`
  abbrev pub up_if_found : List ℕ → Act (Hil K) (List ℕ)
  up_if_found [] = pure []
  up_if_found (i ∷ is) = ask (set_up i)

  -- The index of the link of a name; there being none is an IndexError.
  abbrev pub index_of : Text → Act (Hil K) ℕ
  index_of name = ask (get_link name) >>= λ found. lift (first_index found)

  -- `libc.setns(saved_ns.fileno(), CLONE_NEWNET)`, whose return code is not read
  abbrev pub leave : Act (Hil K) (Unit {0})
  leave = rescue (ask leave_namespace >> pure tt) (λ _. pure tt)

  -- The body of the `try` of `_create_veth`
  abbrev pub build_veth : ℕ → ℕ → Act (Hil K) Bool
  build_veth sat_pid gnd_id =
      ask (enter_namespace sat_pid)
      >> ask (add_veth (sat_iface gnd_id) (host_veth gnd_id))
      >> (ask (get_link (sat_iface gnd_id)) >>= up_if_found)
      >> leave
      >> (ask (get_link (host_veth gnd_id)) >>= up_if_found)
      >> pure true

  -- `_create_veth`
  unfoldable pub create_veth : ℕ → ℕ → Act (Hil K) Bool
  create_veth sat_pid gnd_id =
      ask save_namespace >> ensure (rescue (build_veth sat_pid gnd_id) (λ _. pure false)) leave

  -- The body of the `try` of `_create_bridge`
  abbrev pub build_bridge : Text → ℕ → Text → Act (Hil K) Bool
  build_bridge gnd_name gnd_id hw_iface = do
    _ ← ask (add_bridge (bridge_name gnd_id))
    bridge ← index_of (bridge_name gnd_id)
    _ ← ask (set_up bridge)
    veth ← index_of (host_veth gnd_id)
    _ ← ask (set_master veth bridge)
    hardware ← index_of hw_iface
    _ ← ask (set_master hardware bridge)
    _ ← ask (set_up hardware)
    writes (with_bridge gnd_name gnd_id) true

  -- `_create_bridge`. The hardware is looked up outside of the `try`.
  unfoldable pub create_bridge : Text → ℕ → Act (Hil K) Bool
  create_bridge gnd_name gnd_id = do
    found ← gets (hardware_of gnd_name)
    hw_iface ← lift found
    rescue (build_bridge gnd_name gnd_id hw_iface) (λ _. pure false)

  abbrev pub check_code : List ℕ → Act (Hil K) (Unit {0})
  check_code (zero ∷ _) = pure tt
  check_code _ = fail runtime_error

  -- `_run_tc_batch`
  abbrev pub run_tc_batch : ℕ → List Text → Act (Hil K) (Unit {0})
  run_tc_batch pid commands = ask (run_tc pid commands) >>= check_code

  -- `_apply_qos`
  unfoldable pub apply_qos : ℕ → ℕ → ℕ → ℕ → Act (Hil K) (Unit {0})
  apply_qos sat_pid gnd_id delay_ms rate_kbps =
      rescue_runtime_error
        (run_tc_batch sat_pid (qos_commands (codes "add") gnd_id (max delay_ms 1) rate_kbps))
        (pure tt)

  abbrev pub delete_found : List ℕ → Act (Hil K) (List ℕ)
  delete_found [] = pure []
  delete_found (i ∷ is) = ask (delete_link i)

  abbrev pub delete_bridge : Option Text → Act (Hil K) (Unit {0})
  delete_bridge none = pure tt
  delete_bridge (some []) = pure tt
  delete_bridge (some (c ∷ s)) =
      rescue (ask (get_link (c ∷ s)) >>= delete_found >> pure tt) (λ _. pure tt)

  -- `_teardown_bridge`
  unfoldable pub teardown_bridge : Text → Act (Hil K) (Unit {0})
  teardown_bridge name = do
    br_name ← gets (λ h. get name h.hil_bridges)
    _ ← writes (without_bridge name) tt
    delete_bridge br_name

  -- `_delete_sat_veth`
  unfoldable pub delete_sat_veth : ℕ → ℕ → Act (Hil K) (Unit {0})
  delete_sat_veth sat_pid gnd_id = ask (delete_inside sat_pid (sat_iface gnd_id)) >> pure tt

  -- `setup_link`
  unfoldable pub setup_link : HilLink → Act (Hil K) (Unit {0})
  unfolding create_veth create_bridge apply_qos
  setup_link l = do
    gnd ← gets (λ h. hil_gnd h l)
    sat ← gets (λ h. hil_sat h l)
    when (not (nat_beq sat.container_pid 0)) (do
      made ← create_veth sat.container_pid gnd.id
      when made (do
        bridged ← create_bridge gnd.name gnd.id
        when bridged (do
          rate_kbps ← gets (λ h. link_capacity_kbps h l)
          apply_qos sat.container_pid gnd.id (max l.delay 1) rate_kbps)))

  -- `teardown_link`
  unfoldable pub teardown_link : HilLink → Act (Hil K) (Unit {0})
  unfolding teardown_bridge delete_sat_veth
  teardown_link l = do
    gnd ← gets (λ h. hil_gnd h l)
    sat ← gets (λ h. hil_sat h l)
    _ ← teardown_bridge gnd.name
    when (not (nat_beq sat.container_pid 0)) (delete_sat_veth sat.container_pid gnd.id)

  -- `update_link`
  unfoldable pub update_link : HilLink → Act (Hil K) (Unit {0})
  update_link l = do
    gnd ← gets (λ h. hil_gnd h l)
    sat ← gets (λ h. hil_sat h l)
    rate_kbps ← gets (λ h. link_capacity_kbps h l)
    when (not (nat_beq sat.container_pid 0)) (
        rescue_runtime_error
          (run_tc_batch sat.container_pid
            (qos_commands (codes "change") gnd.id (max l.delay 1) rate_kbps))
          (pure tt))

  -- `wire_links`
  unfoldable pub wire_links : List HilLink → Act (Hil K) (Unit {0})
  unfolding setup_link
  wire_links links = each setup_link links

  -- `teardown_all`
  unfoldable pub teardown_all : Act (Hil K) (Unit {0})
  unfolding teardown_bridge
  teardown_all = gets (λ h. keys h.hil_bridges) >>= each teardown_bridge

  -- One call of the topology manager.
  unfoldable pub perform : Call → Act (Hil K) (Unit {0})
  unfolding setup_link teardown_link update_link wire_links teardown_all
  perform (sets_up l) = setup_link l
  perform (tears_down l) = teardown_link l
  perform (updates l) = update_link l
  perform (wires ls) = wire_links ls
  perform tears_all_down = teardown_all

  -- Calls, one after the other; the caller goes on after an exception.
  unfoldable pub run_calls : List Call → Hil K → Hil K
  unfolding perform
  run_calls [] h = h
  run_calls (c ∷ cs) h = run_calls cs (perform c h).0
