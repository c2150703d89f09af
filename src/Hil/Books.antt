-- ===== src/Hil/Books.antt =====
-- The two dictionaries of the hardware-in-the-loop manager (launchers/hil_manager.py).
use satgonetem.Base.{
  ℕ, zero, suc, ◌≡◌, refl, subst, true, false, Bool-cases, inl, inr, Option, none, some,
  Option-cases, List, [], ◌∷◌, Text, text_eq, ◌==◌, Result, ok, Dict, get, put, pop, keys, mem,
  AllDistinct, AllDistinct-keys-put, arith,
}
use satgonetem.Acts.{rescue, Act, pure}
use satgonetem.Acts.Keeps.{Keeps, reading_Keeps, pure-Keeps, rescue-Keeps, keeping}
use satgonetem.Hil.{
  Hil, HilLink, Machine, Request, has_hardware, bridge_name, host_veth, with_machine, with_bridge,
  without_bridge, hardware_of, ask, up_if_found, delete_found, check_code, delete_bridge,
  delete_sat_veth, create_veth, create_bridge, build_bridge, apply_qos, teardown_bridge, setup_link,
  teardown_link, update_link, wire_links, teardown_all, Call, sets_up, tears_down, updates, wires,
  tears_all_down, perform, run_calls, new_hil,
}

-- The dictionaries have the same ground stations in the same order; each of them has hardware, and
-- its bridge and its veth are named by one number.
abbrev pub Paired : Dict Text Text → Dict Text Text → Dict Text Text → Type 0
Paired hardware [] [] = Unit
Paired hardware [] (_ ∷ _) = ⊥
Paired hardware (_ ∷ _) [] = ⊥
Paired hardware ((g, b) ∷ bs) ((n, v) ∷ vs) =
    (n ≡ g)
    × (has_hardware g hardware ≡ true)
    × ((id : ℕ) × (b ≡ bridge_name id) × (v ≡ host_veth id))
    × Paired hardware bs vs

Paired-put :
    (hardware : Dict Text Text) (g : Text) (id : ℕ) (bs vs : Dict Text Text)
    → has_hardware g hardware ≡ true
    → Paired hardware bs vs
    → Paired hardware (put g (bridge_name id) bs) (put g (host_veth id) vs)
Paired-put hardware g id [] [] has p = (refl, has, (id, refl, refl), tt)
Paired-put hardware g id [] (_ ∷ _) has p = absurd p
Paired-put hardware g id (_ ∷ _) [] has p = absurd p
Paired-put hardware g id ((j, b) ∷ bs) ((n, v) ∷ vs) has (same, old, named, rest) =
    rw same (elim (Bool-cases (j == g)) [
      | inl here ↦ rw here (refl, has, (id, refl, refl), rest)
      | inr other ↦ rw other (refl, old, named, Paired-put hardware g id bs vs has rest)
    ])

Paired-pop :
    (hardware : Dict Text Text) (g : Text) (bs vs : Dict Text Text)
    → Paired hardware bs vs
    → Paired hardware (pop g bs) (pop g vs)
Paired-pop hardware g [] [] p = tt
Paired-pop hardware g [] (_ ∷ _) p = absurd p
Paired-pop hardware g (_ ∷ _) [] p = absurd p
Paired-pop hardware g ((j, b) ∷ bs) ((n, v) ∷ vs) (same, old, named, rest) =
    rw same (elim (Bool-cases (j == g)) [
      | inl here ↦ rw here (Paired-pop hardware g bs vs rest)
      | inr other ↦ rw other (refl, old, named, Paired-pop hardware g bs vs rest)
    ])

has_hardware_of_get :
    (g hw : Text) (d : Dict Text Text) → get g d ≡ some hw → has_hardware g d ≡ true
has_hardware_of_get g hw [] e = ground arith
has_hardware_of_get g hw ((j, w) ∷ d) e = ground (arith, has_hardware_of_get g hw d)

mem-keys-pop :
    (k j : Text) (d : Dict Text Text) → mem j (keys (pop k d)) ≡ true → mem j (keys d) ≡ true
mem-keys-pop k j [] h = h
mem-keys-pop k j ((i, w) ∷ d) h = ground (arith, mem-keys-pop k j d)

AllDistinct-keys-pop :
    (k : Text) (d : Dict Text Text) → AllDistinct (keys d) → AllDistinct (keys (pop k d))
AllDistinct-keys-pop k [] h = tt
AllDistinct-keys-pop k ((i, w) ∷ d) h =
    ground
      (arith, mem-keys-pop k i d, AllDistinct-keys-pop k d h.1, Bool-cases (mem i (keys (pop k d))))

-- The books of the manager are in order.
pub record Books {K : Type 0} (hardware : Dict Text Text) (h : Hil K) : Type 0 where
  pub hardware_eq : h.gnd_hardware_map ≡ hardware
  pub paired : Paired hardware h.hil_bridges h.hil_veths
  pub distinct : AllDistinct (keys h.hil_bridges)

module _ {K : Type 0} (host : Machine K) (hardware : Dict Text Text) where
  abbrev Kept : {A : Type 0} → Act (Hil K) A → Type 0
  Kept act = Keeps (Books hardware) act

  same-Books :
      (h : Hil K) (r : K × Result (List ℕ)) → Books hardware h → Books hardware (with_machine h r).0
  same-Books h (k, r) b = record {
    hardware_eq = b.hardware_eq;
    paired = b.paired;
    distinct = b.distinct;
  }

  ask-Keeps : (q : Request) → Kept (ask host q)
  unfolding ask
  ask-Keeps q = record { holds = λ h b. same-Books h (host q h.machine) b }

  up_if_found-Keeps : (is : List ℕ) → Kept (up_if_found host is)
  up_if_found-Keeps [] = pure-Keeps []
  up_if_found-Keeps (i ∷ is) = ask-Keeps (Request.set_up i)

  delete_found-Keeps : (is : List ℕ) → Kept (delete_found host is)
  delete_found-Keeps [] = pure-Keeps []
  delete_found-Keeps (i ∷ is) = ask-Keeps (Request.delete_link i)

  check_code-Keeps : (is : List ℕ) → Kept (check_code host is)
  check_code-Keeps [] = search keeping
  check_code-Keeps (zero ∷ is) = search keeping
  check_code-Keeps (suc n ∷ is) = search keeping

  delete_bridge-Keeps : (o : Option Text) → Kept (delete_bridge host o)
  delete_bridge-Keeps none = search keeping
  delete_bridge-Keeps (some []) = search keeping
  delete_bridge-Keeps (some (c ∷ s)) = search (keeping, ask-Keeps, delete_found-Keeps)

  create_veth-Keeps : (pid id : ℕ) → Kept (create_veth host pid id)
  unfolding create_veth
  create_veth-Keeps pid id = search (keeping, ask-Keeps, up_if_found-Keeps) depth 20

  Books-with_bridge :
      (g : Text) (id : ℕ) (h : Hil K)
      → has_hardware g hardware ≡ true
      → Books hardware h
      → Books hardware (with_bridge g id h)
  Books-with_bridge g id h has b = record {
    hardware_eq = b.hardware_eq;
    paired = Paired-put hardware g id h.hil_bridges h.hil_veths has b.paired;
    distinct = AllDistinct-keys-put g (bridge_name id) h.hil_bridges b.distinct;
  }

  build_bridge-Keeps :
      (g : Text) (id : ℕ) (hw : Text)
      → has_hardware g hardware ≡ true
      → Kept (build_bridge host g id hw)
  build_bridge-Keeps g id hw has =
      search (keeping, ask-Keeps, λ (h : Hil K). Books-with_bridge g id h has) depth 30

  has_hardware_of_found :
      (g hw : Text) (h : Hil K)
      → hardware_of g h ≡ ok hw
      → Books hardware h
      → has_hardware g hardware ≡ true
  has_hardware_of_found g hw h e b = elim (Option-cases (get g h.gnd_hardware_map)) [
    | inl gone ↦ absurd (ground arith)
    | inr (w, found) ↦
        subst (λ d. has_hardware g d ≡ true) b.hardware_eq
          (has_hardware_of_get g w h.gnd_hardware_map found)
  ]

  create_bridge-Keeps : (g : Text) (id : ℕ) → Kept (create_bridge host g id)
  unfolding create_bridge
  create_bridge-Keeps g id =
      reading_Keeps (hardware_of g) (λ hw. rescue (build_bridge host g id hw) (λ _. pure false))
        (λ hw h e b.
          (rescue-Keeps (build_bridge host g id hw) (λ _. pure false)
              (build_bridge-Keeps g id hw (has_hardware_of_found g hw h e b))
              (λ _. pure-Keeps false)).holds
            h b)

  apply_qos-Keeps : (pid id delay rate : ℕ) → Kept (apply_qos host pid id delay rate)
  unfolding apply_qos
  apply_qos-Keeps pid id delay rate = search (keeping, ask-Keeps, check_code-Keeps) depth 20

  pub Books-without_bridge :
      (g : Text) (h : Hil K) → Books hardware h → Books hardware (without_bridge g h)
  Books-without_bridge g h b = record {
    hardware_eq = b.hardware_eq;
    paired = Paired-pop hardware g h.hil_bridges h.hil_veths b.paired;
    distinct = AllDistinct-keys-pop g h.hil_bridges b.distinct;
  }

  teardown_bridge-Keeps : (g : Text) → Kept (teardown_bridge host g)
  unfolding teardown_bridge
  teardown_bridge-Keeps g = search (keeping, delete_bridge-Keeps, Books-without_bridge g) depth 20

  delete_sat_veth-Keeps : (pid id : ℕ) → Kept (delete_sat_veth host pid id)
  unfolding delete_sat_veth
  delete_sat_veth-Keeps pid id = search (keeping, ask-Keeps) depth 20

  setup_link-Keeps : (l : HilLink) → Kept (setup_link host l)
  unfolding setup_link
  setup_link-Keeps l =
      search (keeping, create_veth-Keeps, create_bridge-Keeps, apply_qos-Keeps) depth 20

  teardown_link-Keeps : (l : HilLink) → Kept (teardown_link host l)
  unfolding teardown_link
  teardown_link-Keeps l = search (keeping, teardown_bridge-Keeps, delete_sat_veth-Keeps) depth 20

  update_link-Keeps : (l : HilLink) → Kept (update_link host l)
  unfolding update_link
  update_link-Keeps l = search (keeping, ask-Keeps, check_code-Keeps) depth 20

  pub perform-Keeps : (c : Call) → Keeps (Books hardware) (perform host c)
  unfolding perform wire_links teardown_all
  perform-Keeps (sets_up l) = setup_link-Keeps l
  perform-Keeps (tears_down l) = teardown_link-Keeps l
  perform-Keeps (updates l) = update_link-Keeps l
  perform-Keeps (wires ls) = search (keeping, setup_link-Keeps)
  perform-Keeps tears_all_down = search (keeping, teardown_bridge-Keeps)

  run_calls-kept :
      (cs : List Call) (h : Hil K) → Books hardware h → Books hardware (run_calls host cs h)
  unfolding run_calls
  run_calls-kept [] h b = b
  run_calls-kept (c ∷ cs) h b = run_calls-kept cs (perform host c h).0 ((perform-Keeps c).holds h b)

  -- From a new manager, after any calls of the topology manager on any links, whatever the machine
  -- answers and whether a call raises or not: the dictionaries of bridges and of veths have the
  -- same ground stations in the same order and none of them twice, each ground station has hardware
  -- in the map, its bridge and its veth are named `brhil` and `hil` with one number, and the
  -- hardware map is the one given.
  pub run_calls-Books :
      (cs : List Call) (capacity : ℕ) (k : K)
      → Books hardware (run_calls host cs (new_hil hardware capacity k))
  run_calls-Books cs capacity k =
      run_calls-kept cs (new_hil hardware capacity k)
        (record { hardware_eq = refl; paired = tt; distinct = tt })
