-- ===== src/Links/Sync.antt =====
-- The pass that brings links into agreement with the simulation (services/mixins/topology_sync.py).
mod Creation
pub mod Loop
pub mod Lists
pub mod Removed
pub mod Agree
unfoldable pub use Creation.*
use satgonetem.Base.{
  ℕ, Bool, true, false, not, ◌&&◌, ◌||◌, Option, none, some, List, [], ◌∷◌, ◌++◌, map, Text, codes,
  ◌==◌, text_eq, pair_eq, option_eq, if◌then◌else◌, Result, ok, raise, value_error, type_error,
  ◌>>=◌, Dict, get, put, mem, filter, keys,
}
use satgonetem.Emulator.{NodeKind, satellite, ground_station}
use satgonetem.Links.{End, Key, Link, Physics, build_link_key, new_link, update_distance_and_delay}

-- `new_active`
abbrev pub new_active : SatLink → Bool
new_active s = or_default s.is_active (not (or_default s.disabled false))

abbrev pub activate : Bool → Link → Link
activate true l = record l { is_active = true; to_add = true; to_remove = false }
activate false l = record l { is_active = false; to_add = false; to_remove = true }

abbrev pub bool_same : Bool → Bool → Bool
bool_same true b = b
bool_same false b = not b

-- The branch for a link that is known.
unfoldable pub sync_existing : SatLink → Link → Link
sync_existing s l =
    let held = record l { satcom_object = some s.reference } in
    if bool_same l.is_active (new_active s) then held else activate (new_active s) held

-- The ends and the key of a link of the simulation, where it has two ends of known classes; the
-- others are skipped.
pub record Valid : Type 0 where
  pub from : End
  pub to : End
  pub key : Key

abbrev pub valid_ends : End → End → Result Key → Option Valid
valid_ends from to (raise x) = none
valid_ends from to (ok k) = some (record { from = from; to = to; key = k })

abbrev pub between : Option End → Option End → Option Valid
between none to = none
between (some from) none = none
between (some from) (some to) = valid_ends from to (build_link_key from to)

unfoldable pub valid_link : SatLink → Option Valid
valid_link s = between s.source s.destination

-- What the loop over the links of the simulation keeps.
pub record Pass : Type 0 where
  pub links : Dict Key Link
  pub current_keys : List Key
  pub distance_refresh : List Key

module _ (physics : Physics) (settings : Settings) (mark : Bool) where
  -- `mark` is `self.initial_sync or add_anyway`
  abbrev pub add_created : Key → Result Link → Pass → Pass
  add_created k (raise x) p = p
  add_created k (ok l) p =
      let marked = if mark && l.is_active then record l { to_add = true } else l in
      record p { links = put k marked p.links }

  abbrev pub sync_key : Key → End → End → SatLink → Pass → Pass
  sync_key k from to s p = elim (get k p.links) [
    | none ↦ add_created k (create_link_from_satcom_link physics settings from to s) p
    | some l ↦ record p {
      links = put k (sync_existing s l) p.links;
      distance_refresh = p.distance_refresh ++ k ∷ [];
    }
  ]

  -- `current_keys.add(key)` and what follows it
  abbrev pub sync_valid : Option Valid → SatLink → Pass → Pass
  sync_valid none s p = p
  sync_valid (some v) s p =
      sync_key v.key v.from v.to s (record p { current_keys = p.current_keys ++ v.key ∷ [] })

  abbrev pub sync_one : SatLink → Pass → Pass
  sync_one s p = sync_valid (valid_link s) s p

  unfoldable pub sync_each : List SatLink → Pass → Pass
  sync_each [] p = p
  sync_each (s ∷ ss) p = sync_each ss (sync_one s p)

-- `self.links[k]` changed in place
unfoldable pub modify : Key → (Link → Link) → Dict Key Link → Dict Key Link
modify k f [] = []
modify k f ((j, l) ∷ d) = let rest = modify k f d in if j == k then (j, f l) ∷ d else (j, l) ∷ rest

module _ (physics : Physics) where
  abbrev pub refresh_distance : Link → Link
  refresh_distance l = elim (physics.distance_between l.source l.target) [
    | ok distance ↦ update_distance_and_delay physics distance l
    | raise _ ↦ l
  ]

  -- `_refresh_link_distances`. The batch and its fallback compute the same distances; a link whose
  -- distance cannot be computed stays as it is.
  unfoldable pub refresh_link_distances : List Key → Dict Key Link → Dict Key Link
  refresh_link_distances [] d = d
  refresh_link_distances (k ∷ ks) d = refresh_link_distances ks (modify k refresh_distance d)

-- The links whose key is not among the current ones are to be removed.
unfoldable pub mark_absent : List Key → Dict Key Link → Dict Key Link
mark_absent current [] = []
mark_absent current ((k, l) ∷ d) =
    let rest = mark_absent current d in
    (k, if mem k current then l else record l { to_remove = true }) ∷ rest

-- The keys of the links that a test selects, in the order of the dictionary.
unfoldable pub keys_where : (Link → Bool) → Dict Key Link → List Key
keys_where test [] = []
keys_where test ((k, l) ∷ d) = let rest = keys_where test d in if test l then k ∷ rest else rest

abbrev pub in_remove : Link → Bool
in_remove l = l.to_remove

abbrev pub in_add : Link → Bool
in_add l = not l.to_remove && l.to_add

abbrev pub in_update : Link → Bool
in_update l = not l.to_remove && not l.to_add && l.to_update

-- The answer of `_sync_links`.
pub record Changes : Type 0 where
  pub links_to_add : List Key
  pub links_to_update : List Key
  pub links_to_remove : List Key

unfoldable pub collect : Dict Key Link → Changes
unfolding keys_where
collect d = record {
  links_to_add = keys_where in_add d;
  links_to_update = keys_where in_update d;
  links_to_remove = keys_where in_remove d;
}

-- `_sync_links`: the links and the changes
unfoldable pub sync_links :
    Physics → Settings → Bool → List SatLink → Dict Key Link → Dict Key Link × Changes
unfolding sync_each refresh_link_distances mark_absent collect
sync_links physics settings mark data_links d =
    let start : Pass = record { links = d; current_keys = []; distance_refresh = [] } in
    let p = sync_each physics settings mark data_links start in
    let after =
      mark_absent p.current_keys (refresh_link_distances physics p.distance_refresh p.links) in
    (after, collect after)

-- `_sync_links_to_delete`
abbrev pub key_of : Option Valid → List Key
key_of none = []
key_of (some v) = v.key ∷ []

unfoldable pub simulated_keys : List SatLink → List Key
simulated_keys [] = []
simulated_keys (s ∷ ss) = key_of (valid_link s) ++ simulated_keys ss

unfoldable pub sync_links_to_delete : List SatLink → Dict Key Link → Dict Key Link
unfolding simulated_keys mark_absent
sync_links_to_delete data_links d = mark_absent (simulated_keys data_links) d
