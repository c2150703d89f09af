-- ===== src/Tests/Controller.antt =====
-- Addresses on the plane of the controller at concrete inputs (services/mixins/controller.py).
use satgonetem.Base.{
  ◌≡◌, ◌≢◌, ◌⊎◌, refl, Bool, true, false, Bool-cases, inl, inr, [], ◌==◌, ℕ, Text, codes, pos, ok,
  raise, value_error, runtime_error, text_eq, list_eq, decimal, nat_beq, if◌then◌else◌, split,
  int_of_text, left_strip, right_strip,
}
use satgonetem.Address.{
  get_ipv4_address, quaddot, value_from, padded, binary_fuel, link_addresses, is_valid_ipv4,
}
use satgonetem.Address.Distinct.{side}
use satgonetem.Launch.Containers.{splitlines}
use satgonetem.Acts.{◌>>=◌}
use satgonetem.Acts.Ends.{IsOk}
use satgonetem.Acts.Leads.{Post}
use satgonetem.Controller.{
  build_controller_ip, Command, on_host, Shell, Plane, delete_veth, add_address,
  setup_controller_connection, cleanup_controller_connection, run_command,
}
use satgonetem.Controller.Rollback.{IsHost, setup_controller_connection_lem}
use satgonetem.Controller.Distinct.{build_controller_ip-distinct}

first_runs : build_controller_ip (pos 5) ≡ ok (codes "248.0.0.11")
unfolding build_controller_ip quaddot value_from padded binary_fuel decimal
first_runs = refl

second_runs : build_controller_ip (pos 8191) ≡ ok (codes "248.0.63.255")
unfolding build_controller_ip quaddot value_from padded binary_fuel decimal
second_runs = refl

too_large : build_controller_ip (pos 8192) ≡ raise value_error
unfolding build_controller_ip quaddot value_from padded binary_fuel decimal
too_large = refl

abbrev link_pair : Text × Text
link_pair = (codes "128.10.0.76", codes "128.10.0.77")

link_runs : get_ipv4_address (pos 5) (pos 9) (codes "Satellite") false ≡ ok link_pair
unfolding get_ipv4_address link_addresses quaddot value_from padded binary_fuel decimal
    is_valid_ipv4 split int_of_text
link_runs = refl

-- The kinds start with different letters.
satellite_is_other : codes "Satellite" ≢ codes "UserTerminal"
satellite_is_other e = absurd cc

build_controller_ip-distinct_example :
    ((pos 5 ≡ pos 8191) ⊎ (codes "248.0.0.11" ≢ codes "248.0.63.255"))
    × (side true link_pair ≢ codes "248.0.0.11")
build_controller_ip-distinct_example =
    build_controller_ip-distinct (pos 5) (pos 8191) (pos 5) (pos 9) (codes "Satellite") false true
      (codes "248.0.0.11") (codes "248.0.63.255") link_pair first_runs second_runs link_runs
      satellite_is_other

abbrev plane : Plane
plane = record {
  veth_host = codes "veth0";
  veth_peer = codes "veth1";
  bridge = codes "brctl";
  host_ip = codes "248.0.0.1";
  subnet_prefix = 5;
}

abbrev same_command : Command → Command → Bool
same_command (on_host ws) (on_host vs) = ws == vs
same_command _ _ = false

-- The state says whether the host has its address. Adding it is answered with a return code.
unfoldable host_shell : ℕ → Shell Bool
host_shell code c up =
    if same_command c (delete_veth plane)
    then (false, ok (1, []))
    else if same_command c (add_address plane)
    then (nat_beq code 0, ok (code, []))
    else (up, ok (0, codes "5a0c"))

always_answered : (code : ℕ) (c : Command) (up : Bool) → IsOk (host_shell code c up).1
unfolding host_shell
always_answered code c up = elim (Bool-cases (same_command c (delete_veth plane))) [
  | inl deleting ↦ ((1, []), rw deleting refl)
  | inr other ↦ elim (Bool-cases (same_command c (add_address plane))) [
    | inl adding ↦ ((code, []), rw (other, adding) refl)
    | inr none_of_them ↦ ((0, codes "5a0c"), rw (other, none_of_them) refl)
  ]
]

host_shell-IsHost : IsHost (host_shell 0) plane (λ up. up ≡ true) (λ up. up ≡ false)
unfolding host_shell decimal
host_shell-IsHost = record {
  answers = always_answered 0;
  deletes = λ up. refl;
  finds = λ up down. down;
  adds = λ up out e. refl;
}

setup_controller_connection_lem_example :
    Post
      (λ _ up. up ≡ true)
      (λ up. up ≡ false)
      (setup_controller_connection (host_shell 0) plane false)
    × (let left = (setup_controller_connection (host_shell 0) plane false).0 in
        IsOk (cleanup_controller_connection (host_shell 0) plane left).1
        × ((cleanup_controller_connection (host_shell 0) plane left).0 ≡ false))
setup_controller_connection_lem_example =
    setup_controller_connection_lem (host_shell 0) plane (λ up. up ≡ true) (λ up. up ≡ false)
      host_shell-IsHost false refl

setup_succeeds : setup_controller_connection (host_shell 0) plane false ≡ (true, ok tt)
unfolding setup_controller_connection host_shell ◌>>=◌ run_command splitlines left_strip right_strip
    decimal
setup_succeeds = refl

setup_fails : setup_controller_connection (host_shell 1) plane false ≡ (false, raise runtime_error)
unfolding setup_controller_connection host_shell ◌>>=◌ run_command splitlines left_strip right_strip
    decimal
setup_fails = refl
