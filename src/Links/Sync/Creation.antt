-- ===== src/Links/Sync/Creation.antt =====
-- Links of the simulation, and the creation of a link from one of them
-- (services/mixins/topology_sync.py).
use satgonetem.Base.{
  ℕ, Bool, true, not, Option, none, some, Text, codes, ◌==◌, text_eq, pair_eq, option_eq,
  if◌then◌else◌, Result, ok, raise, value_error, type_error, ◌>>=◌, Dict, get,
}
use satgonetem.Emulator.{satellite, ground_station}
use satgonetem.Links.{End, Link, Physics, new_link}

-- `InterSatelliteLinkDirection`
pub data Direction : Type 0 where
  orbital adjacent undefined : Direction

-- A link of the simulation. An attribute that may be missing is an option.
pub record SatLink : Type 0 where
  pub source : Option End
  pub destination : Option End
  pub is_active : Option Bool
  pub disabled : Option Bool
  pub type : Option Text
  pub inter_satellite_direction : Option Direction
  pub reference : ℕ

-- The attributes of the topology manager that the creation of links reads.
pub record Settings : Type 0 where
  pub satellites : Dict Text End
  pub ground_stations : Dict Text End
  pub isl_link_capacity : ℕ
  pub gnd_link_capacity : ℕ
  pub ground_object_link_capacity : Option ℕ
  pub use_budget : Bool

-- `getattr(o, name, default)`
abbrev pub or_default {ℓ} : {A : Type ℓ} → Option A → A → A
or_default none d = d
or_default (some a) d = a

abbrev ground_station_or_raise : Option End → Result End
ground_station_or_raise none = raise value_error
ground_station_or_raise (some e) = elim e.kind [
  | none ↦ raise type_error
  | some k ↦ elim k [ satellite ↦ raise type_error | ground_station ↦ ok e ]
]

-- The `match` on `self.satellites.get(uid)`
unfoldable pub find_node : Settings → Text → Result End
find_node settings uid = elim (get uid settings.satellites) [
  | none ↦ ground_station_or_raise (get uid settings.ground_stations)
  | some e ↦ elim e.kind [
    | none ↦ raise type_error
    | some k ↦ elim k [ satellite ↦ ok e | ground_station ↦ raise type_error ]
  ]
]

abbrev direction_text : Direction → Text
direction_text orbital = codes "Orbital"
direction_text adjacent = codes "Adjacent"
direction_text undefined = codes "Undefined"

abbrev default_capacity : Settings → Text → ℕ
default_capacity settings type =
    if type == codes "InterSatelliteLink"
    then settings.isl_link_capacity
    else if type == codes "GroundObjectLink"
    then or_default settings.ground_object_link_capacity settings.gnd_link_capacity
    else settings.gnd_link_capacity

module _ (physics : Physics) (settings : Settings) where
  -- `_create_link_from_satcom_link`, given the two ends that its caller found
  unfoldable pub create_link_from_satcom_link : End → End → SatLink → Result Link
  create_link_from_satcom_link from to s = do
    source ← find_node settings from.uniq_id
    destination ← find_node settings to.uniq_id
    let type = or_default s.type (codes "Link")
    distance ← physics.distance_between source destination
    let link =
        new_link physics source destination distance type
          (direction_text (or_default s.inter_satellite_direction undefined))
          (not (or_default s.disabled true)) (default_capacity settings type) settings.use_budget
    ok (record link { satcom_object = some s.reference })
