-- ===== src/Links.antt =====
-- Links between nodes (models/link.py) and their keys (services/mixins/topology_sync.py). A float is
-- a number that stands for its bit pattern, and what is computed on floats is a parameter.
pub mod Keys
pub mod Operations
pub mod Sync
pub mod Update
use satgonetem.Base.{
  ℕ, Bool, true, false, not, ◌&&◌, ◌||◌, Option, none, some, List, [], ◌∷◌, ◌++◌, Text, codes, ◌==◌,
  text_eq, pair_eq, nat_eq, ltb, nat_beq, if◌then◌else◌, Result, ok, raise, value_error, ◌>>=◌,
  Dict, get,
}
use satgonetem.Emulator.{NodeKind, satellite, ground_station}

-- A node, or an object of the simulation: its class, if it is a satellite or a ground station, its
-- `topology_uniq_id` as a text, and its own reference.
pub record End : Type 0 where
  pub kind : Option NodeKind
  pub uniq_id : Text
  pub reference : ℕ

-- A `frozenset` of two names, the smaller one first.
abbrev pub Key : Type 0
Key = Text × Text

abbrev pub text_leb : Text → Text → Bool
text_leb [] t = true
text_leb (c ∷ s) [] = false
text_leb (c ∷ s) (d ∷ t) = ltb c d || nat_beq c d && text_leb s t

abbrev pub frozenset : Text → Text → Key
frozenset s t = if text_leb s t then (s, t) else (t, s)

abbrev pub end_name : Option NodeKind → Text → Option Text
end_name none uid = none
end_name (some satellite) uid = some (codes "Sat" ++ uid)
end_name (some ground_station) uid = some (codes "Gnd" ++ uid)

-- `_build_link_key`
unfoldable pub build_link_key : End → End → Result Key
build_link_key source target = elim (end_name source.kind source.uniq_id) [
  | none ↦ raise value_error
  | some s ↦ elim (end_name target.kind target.uniq_id) [
    | none ↦ raise value_error
    | some t ↦ ok (frozenset s t)
  ]
]

-- `Link`. `satcom_object` is a reference.
pub record Link : Type 0 where
  pub source : End
  pub target : End
  pub distance : ℕ
  pub type : Text
  pub is_active : Bool
  pub direction : Text
  pub use_budget : Bool
  pub default_capacity_kbps : ℕ
  pub peer1_capacity : ℕ
  pub peer2_capacity : ℕ
  pub peer_interfaces : List ℕ
  pub delay : ℕ
  pub to_update : Bool
  pub to_add : Bool
  pub to_remove : Bool
  pub to_delete : Bool
  pub satcom_object : Option ℕ

-- What the code computes on floats: `distance_3d_km` in metres, which raises on positions that are
-- not complete, the delay in milliseconds, `!=`, and the capacities of the link budget.
pub record Physics : Type 0 where
  pub distance_between : End → End → Result ℕ
  pub delay_of : ℕ → ℕ
  pub differs : ℕ → ℕ → Bool
  pub budget : Link → ℕ × ℕ

module _ (physics : Physics) where
  -- `update_link_capacities`
  unfoldable pub update_link_capacities : Link → Link
  update_link_capacities l =
      let capacities =
        if l.use_budget && l.type == codes "GroundStationLink"
        then physics.budget l
        else (l.default_capacity_kbps, l.default_capacity_kbps) in
      record l { peer1_capacity = capacities.0; peer2_capacity = capacities.1 }

  -- `Link.__init__`
  unfoldable pub new_link : End → End → ℕ → Text → Text → Bool → ℕ → Bool → Link
  unfolding update_link_capacities
  new_link source target distance type direction is_active capacity use_budget =
      update_link_capacities (record {
        source = source;
        target = target;
        distance = distance;
        type = type;
        is_active = is_active;
        direction = direction;
        use_budget = use_budget;
        default_capacity_kbps = capacity;
        peer1_capacity = 0;
        peer2_capacity = 0;
        peer_interfaces = [];
        delay = physics.delay_of distance;
        to_update = false;
        to_add = false;
        to_remove = false;
        to_delete = false;
        satcom_object = none;
      })

  -- `refresh_link_capacities`, without the answer that its caller does not read
  unfoldable pub refresh_link_capacities : Link → Link
  unfolding update_link_capacities
  refresh_link_capacities l =
      let after = update_link_capacities l in
      let same =
        nat_beq after.peer1_capacity l.peer1_capacity
        && nat_beq after.peer2_capacity l.peer2_capacity in
      if same then after else record after { to_update = true }

  -- `update_distance_and_delay`
  unfoldable pub update_distance_and_delay : ℕ → Link → Link
  unfolding refresh_link_capacities
  update_distance_and_delay distance l =
      let delay = physics.delay_of distance in
      let moved = record l { distance = distance } in
      let timed =
        if nat_beq delay l.delay then moved else record moved { delay = delay; to_update = true } in
      if physics.differs distance l.distance && l.use_budget && l.type == codes "GroundStationLink"
      then refresh_link_capacities timed
      else timed
