-- ===== src/Tests/Links.antt =====
-- Links at concrete inputs (services/mixins/topology_sync.py, services/mixins/link_ops.py).
use satgonetem.Base.{
  ℕ, ◌/◌, ◌≡◌, ◌≢◌, ◌↔◌, ◌⊎◌, refl, sym, ap, ◌∙◌, ok-injective, true, false, not, Option, Exception,
  runtime_error, some-injective, List, none, some, [], ◌∷◌, Text, codes, text_eq, pair_eq, list_eq,
  nat_eq, nat_beq, ok, Dict, get, mem, keys, AllDistinct, if◌then◌else◌,
}
use satgonetem.Emulator.{Interface, Node, satellite, ground_station}
use satgonetem.Links.{End, Key, Link, Physics, build_link_key, new_link, update_link_capacities}
use satgonetem.Links.Keys.{KeysAgree, KeysAgree-cons, KeysAgree-empty, SameEnd, build_link_key_same}
use satgonetem.Links.Sync.{
  SatLink, Settings, Valid, valid_link, Changes, simulated_keys, sync_links, find_node,
}
use satgonetem.Links.Sync.Removed.{sync_links-absent, sync_links-existing}
use satgonetem.Links.Sync.Agree.{AllNamed}
use mathlib.Core.List.Permᴰ
use mathlib.Core.List.{Permᴰ, reverse}
use satgonetem.Links.Operations.{World, Surroundings, cleanup_removed_links, Action, update_routing}
use satgonetem.Links.Operations.Cleanup.{SameLink, cleanup_removed_links_lem}
use satgonetem.Links.Update.{apply_changes, update_simulation, Ending, completed, interrupted}
use satgonetem.Links.Update.Outcome.{apply_changes_lem, update_simulation_lem, IsDue, world_of}

abbrev sat_one : End
sat_one = record { kind = some satellite; uniq_id = codes "1"; reference = 1 }

abbrev sat_two : End
sat_two = record { kind = some satellite; uniq_id = codes "2"; reference = 2 }

abbrev gnd_seven : End
gnd_seven = record { kind = some ground_station; uniq_id = codes "7"; reference = 7 }

abbrev isl_key : Key
isl_key = (codes "Sat1", codes "Sat2")

abbrev gnd_key : Key
gnd_key = (codes "Gnd7", codes "Sat1")

build_link_key_runs :
    (build_link_key sat_two sat_one ≡ ok isl_key) × (build_link_key sat_one gnd_seven ≡ ok gnd_key)
unfolding build_link_key
build_link_key_runs = (refl, refl)

isl_key_reversed : build_link_key sat_one sat_two ≡ ok isl_key
unfolding build_link_key
isl_key_reversed = refl

build_link_key_same_example : (isl_key ≡ isl_key) ↔ (
    (SameEnd sat_one sat_two × SameEnd sat_two sat_one)
    ⊎ (SameEnd sat_one sat_one × SameEnd sat_two sat_two))
build_link_key_same_example =
    build_link_key_same sat_one sat_two sat_two sat_one isl_key isl_key isl_key_reversed
      build_link_key_runs.0

unfoldable physics : Physics
physics = record {
  distance_between = λ a b. ok 3000000;
  delay_of = λ d. d / 299792;
  differs = λ a b. not (nat_beq a b);
  budget = λ l. (500, 400);
}

abbrev link_from : End → End → Text → Link
unfolding physics new_link
link_from a b type = new_link physics a b 2000000 type (codes "Undefined") true 1000 false

unfoldable known_links : Dict Key Link
unfolding physics new_link update_link_capacities
known_links =
    (isl_key, link_from sat_two sat_one (codes "InterSatelliteLink"))
    ∷ (gnd_key, link_from sat_one gnd_seven (codes "GroundStationLink"))
    ∷ []

abbrev quiet_link : SatLink
quiet_link = record {
  source = some sat_two;
  destination = some sat_one;
  is_active = some false;
  disabled = none;
  type = some (codes "InterSatelliteLink");
  inter_satellite_direction = none;
  reference = 40;
}

abbrev settings : Settings
settings = record {
  satellites = (codes "1", sat_one) ∷ (codes "2", sat_two) ∷ [];
  ground_stations = (codes "7", gnd_seven) ∷ [];
  isl_link_capacity = 100000;
  gnd_link_capacity = 50000;
  ground_object_link_capacity = none;
  use_budget = false;
}

known_links-distinct : AllDistinct (keys known_links)
unfolding known_links
known_links-distinct = (refl, (refl, tt))

gnd_link-known :
    get gnd_key known_links ≡ some (link_from sat_one gnd_seven (codes "GroundStationLink"))
unfolding known_links
gnd_link-known = refl

gnd_link-gone : mem gnd_key (simulated_keys (quiet_link ∷ [])) ≡ false
unfolding simulated_keys valid_link build_link_key
gnd_link-gone = refl

sync_links-absent_example :
    mem gnd_key (sync_links physics settings true (quiet_link ∷ []) known_links).1.links_to_remove
    ≡ true
sync_links-absent_example =
    sync_links-absent physics settings true (quiet_link ∷ []) known_links gnd_key
      (link_from sat_one gnd_seven (codes "GroundStationLink")) known_links-distinct gnd_link-known
      gnd_link-gone

abbrev quiet : Valid
quiet = record { from = sat_two; to = sat_one; key = isl_key }

quiet_link-valid : valid_link quiet_link ≡ some quiet
unfolding valid_link build_link_key
quiet_link-valid = refl

isl_link-known :
    get isl_key known_links ≡ some (link_from sat_two sat_one (codes "InterSatelliteLink"))
unfolding known_links
isl_link-known = refl

not_simulated : mem isl_key (simulated_keys []) ≡ false
unfolding simulated_keys
not_simulated = refl

sync_links-existing_example :
    (m : Link) × (get isl_key (sync_links physics settings true (quiet_link ∷ []) known_links).0
      ≡ some m)
    × (m.is_active ≡ false)
    × ((link_from sat_two sat_one (codes "InterSatelliteLink")).is_active ≡ false
        → (m.to_add ≡ (link_from sat_two sat_one (codes "InterSatelliteLink")).to_add)
          × (m.to_remove ≡ (link_from sat_two sat_one (codes "InterSatelliteLink")).to_remove))
    × ((link_from sat_two sat_one (codes "InterSatelliteLink")).is_active ≢ false
        → (m.to_add ≡ false) × (m.to_remove ≡ true))
sync_links-existing_example =
    sync_links-existing physics settings true [] quiet_link [] quiet
      (link_from sat_two sat_one (codes "InterSatelliteLink")) known_links quiet_link-valid
      not_simulated not_simulated isl_link-known

known_links-KeysAgree : KeysAgree known_links
unfolding known_links new_link update_link_capacities
known_links-KeysAgree =
    KeysAgree-cons isl_key (link_from sat_two sat_one (codes "InterSatelliteLink"))
      ((gnd_key, link_from sat_one gnd_seven (codes "GroundStationLink")) ∷ [])
      build_link_key_runs.0
      (KeysAgree-cons gnd_key (link_from sat_one gnd_seven (codes "GroundStationLink")) []
        build_link_key_runs.1 KeysAgree-empty)

abbrev node_named : Text → ℕ → Node
node_named name id = record {
  kind = satellite;
  name = name;
  id = id;
  ipv4_routing_table = [];
  ipv4_previous_routing_table = [];
  tables_shared = true;
  interfaces = [];
  loopback = 90;
  container = true;
  addressable = true;
}

abbrev bare : Interface
bare = record {
  ipv4 = [];
  name = [];
  peer = none;
  is_monitored = false;
  is_active = false;
  previously_active = true;
  type = [];
  delay = 0;
  mac_address = none;
}

unfoldable world : World
world = record {
  links = known_links;
  heap = λ i. bare;
  nodes = λ n.
      if nat_beq n 7
      then node_named (codes "Gnd7") 7
      else if nat_beq n 1
      then node_named (codes "Sat1") 1
      else node_named (codes "Sat2") 2;
  next_interface = 100;
  interfaces = [];
  interface_version = 0;
  status = true;
  trace = [];
}

world-KeysAgree : KeysAgree world.links
unfolding world
world-KeysAgree = known_links-KeysAgree

world-distinct : AllDistinct (keys world.links)
unfolding world
world-distinct = known_links-distinct

abbrev around : Surroundings
around = record {
  is_hil_link = λ k. false;
  has_launcher = true;
  failure = λ a. none;
  order = λ w ts. reverse ts;
}

cleanup_removed_links_lem_example :
    (v : World) × (cleanup_removed_links (gnd_key ∷ []) world ≡ ok v)
    × ((j : Key) → get j v.links ≡ (if mem j (gnd_key ∷ []) then none else get j known_links))
    × (v.trace ≡ [])
unfolding world
cleanup_removed_links_lem_example =
    cleanup_removed_links_lem (gnd_key ∷ []) world known_links-KeysAgree

abbrev changes : Changes
changes = record {
  links_to_add = isl_key ∷ [];
  links_to_update = [];
  links_to_remove = gnd_key ∷ [];
}

apply_changes_lem_example :
    (e : Ending) × (apply_changes around true changes world ≡ ok e)
    × IsDue around true changes e
    × ((k : Key) (m : Link)
        → get k (world_of e).links ≡ some m
        → (mem k (gnd_key ∷ []) ≡ false)
          × ((l : Link) × (get k world.links ≡ some l) × SameLink l m))
apply_changes_lem_example = apply_changes_lem around true changes world world-KeysAgree

same_end : (e n : End) → ok e ≡ ok n → SameEnd n e
same_end e n found =
    let same : e ≡ n = ok-injective found in
    (sym (ap (λ (a : End). a.kind) same), sym (ap (λ (a : End). a.uniq_id) same))

found_named : AllNamed settings (quiet_link ∷ [])
unfolding valid_link build_link_key find_node
found_named = ((same_end sat_two, same_end sat_one), tt)

update_simulation_lem_example :
    (e : Ending) × (update_simulation around physics settings true true (quiet_link ∷ []) world
      ≡ ok e)
    × IsDue around true (sync_links physics settings true (quiet_link ∷ []) world.links).1 e
    × ((k : Key) (m : Link)
        → get k (world_of e).links ≡ some m
        → (mem k (simulated_keys (quiet_link ∷ [])) ≡ true) × (m.to_remove ≡ false))
update_simulation_lem_example =
    update_simulation_lem around physics settings true true (quiet_link ∷ []) world world-distinct
      world-KeysAgree found_named

-- A daemon that raises ends the step.
abbrev fails_at_routing : Action → Option Exception
fails_at_routing (update_routing _) = some runtime_error
fails_at_routing _ = none

abbrev daemon_fails : Surroundings
daemon_fails = record around { failure = fails_at_routing }

interrupted_runs :
    (w : World) × (apply_changes daemon_fails true changes world ≡ ok (interrupted w runtime_error))
interrupted_runs =
    let (e, done, due, left) = apply_changes_lem daemon_fails true changes world world-KeysAgree in
    ended e done due
  where
    ended :
        (e : Ending)
        → apply_changes daemon_fails true changes world ≡ ok e
        → IsDue daemon_fails true changes e
        → (w : World) × (apply_changes daemon_fails true changes world
            ≡ ok (interrupted w runtime_error))
    ended (completed w) done due = absurd cc
    ended (interrupted w x) done due =
        (w, done ∙ ap (λ y. ok (interrupted w y)) (some-injective (sym due)))
