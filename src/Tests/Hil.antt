-- ===== src/Tests/Hil.antt =====
-- The hardware-in-the-loop manager on a small machine (launchers/hil_manager.py).
use satgonetem.Base.{
  ℕ, ◌≡◌, refl, not, ◌&&◌, Option, none, some, List, [], ◌∷◌, ◌++◌, codes, text_eq, nat_eq, nat_beq,
  if◌then◌else◌, Result, ok, raise, runtime_error, ℤ, pos, negsuc, int_of_text, int_of_text-decimal,
  is_prefix, mem, mem-filter, filter, values, decimal,
}
use satgonetem.Address.{drop}
use satgonetem.Acts.{◌>>=◌}
use satgonetem.Hil.{
  Hil, Station, HilLink, Machine, add_bridge, get_link, delete_link, run_tc, bridge_name, Call,
  sets_up, tears_down, updates, run_calls, new_hil, teardown_all, ask,
}
use satgonetem.Hil.Books.{Books, run_calls-Books}
use satgonetem.Hil.Release.{HasBridges, teardown_all_lem}

-- The machine knows the numbers of the bridges that there are, and one link of each other name.
abbrev bridge_number : Option ℤ → List ℕ
bridge_number (some (pos n)) = n ∷ []
bridge_number (some (negsuc n)) = []
bridge_number none = []

-- A bridge that there is not is an exception.
abbrev asked_for : List ℕ → List ℕ → Result (List ℕ)
asked_for bridges [] = raise runtime_error
asked_for bridges (n ∷ _) = if mem n bridges then ok (n ∷ []) else raise runtime_error

unfoldable small : Machine (List ℕ)
small (add_bridge name) k = (k ++ bridge_number (int_of_text (drop 5 name)), ok [])
small (get_link name) k = (
  k,
  if is_prefix (codes "brhil") name
      then asked_for k (bridge_number (int_of_text (drop 5 name)))
      else ok (0 ∷ []),
)
small (delete_link i) k = (filter (λ n. not (nat_beq i n)) k, ok [])
small (run_tc pid commands) k = (k, ok (0 ∷ []))
small _ k = (k, ok [])

small-HasBridges : HasBridges small mem (λ id k. id)
unfolding small
small-HasBridges = record {
  found = λ id k there. rw (int_of_text-decimal id, there) refl;
  missing = λ id k absent. (raise runtime_error, rw (int_of_text-decimal id, absent) refl, tt);
  gone = λ id k there j. mem-filter (λ n. not (nat_beq id n)) j k;
}

abbrev ground : Station
ground = record { name = codes "Gnd7"; id = 7; container_pid = 0 }

abbrev link_from : ℕ → ℕ → HilLink
link_from sat pid = record {
  type = codes "GroundStationLink";
  source = record { name = codes "Sat" ++ decimal sat; id = sat; container_pid = pid };
  target = ground;
  delay = 4;
  peer1_capacity = 0;
}

-- A handover, and a satellite that has no container.
abbrev handover : List Call
handover =
    sets_up (link_from 1 411)
    ∷ updates (link_from 1 411)
    ∷ tears_down (link_from 1 411)
    ∷ sets_up (link_from 2 0)
    ∷ sets_up (link_from 3 413)
    ∷ []

abbrev after_handover : Hil (List ℕ)
after_handover = run_calls small handover (new_hil ((codes "Gnd7", codes "eth1") ∷ []) 100_000 [])

run_calls_runs :
    (after_handover.hil_bridges ≡ (codes "Gnd7", codes "brhil7") ∷ [])
    × (after_handover.hil_veths ≡ (codes "Gnd7", codes "hil7") ∷ [])
    × (after_handover.machine ≡ 7 ∷ [])
unfolding run_calls small ask ◌>>=◌ decimal int_of_text
run_calls_runs = (refl, refl, refl)

run_calls-Books_example : Books ((codes "Gnd7", codes "eth1") ∷ []) after_handover
run_calls-Books_example =
    run_calls-Books small ((codes "Gnd7", codes "eth1") ∷ []) handover 100_000 []

teardown_all_lem_example :
    let after = teardown_all small after_handover in
    (after.1 ≡ ok tt)
    × (after.0.hil_bridges ≡ [])
    × (after.0.hil_veths ≡ [])
    × ((j : ℕ)
        → mem j after.0.machine ≡ (
            mem j after_handover.machine
            && not (mem (bridge_name j) (values after_handover.hil_bridges))))
teardown_all_lem_example =
    teardown_all_lem small mem (λ id k. id) small-HasBridges ((codes "Gnd7", codes "eth1") ∷ [])
      after_handover run_calls-Books_example
