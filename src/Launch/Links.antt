-- ===== src/Launch/Links.antt =====
-- The requests of the launcher for one link (launchers/gonetem_launcher.py).
use satgonetem.Base.{
  max, ℕ, Option, none, some, List, [], ◌∷◌, ◌++◌, Text, codes, decimal, ◌==◌, text_eq,
  if◌then◌else◌,
}
use satgonetem.Acts.{Act, pure, gets, writes, rescue, ◌>>=◌, ◌>>◌}
use satgonetem.Launch.{
  WireLink, Qos, LinkConfig, Order, link_update, link_add, link_del, Server, Launcher, tbf_burst,
  link_capacities_for, open_request, ask,
}

module _ {K : Type 0} (server : Server K) (tbf_buffer : ℕ → ℕ → ℕ) where
  abbrev pub qos : WireLink → ℕ → Qos
  qos l rate =
      let delay_ms = max l.delay 1 in
      record {
        delay = delay_ms;
        rate = rate;
        loss = l.loss;
        jitter = l.jitter;
        buffer = tbf_buffer rate delay_ms;
        burst = tbf_burst rate;
      }

  -- `_link_request`, without the identifier of the project
  unfoldable pub link_config : Launcher K → WireLink → LinkConfig
  unfolding link_capacities_for
  link_config s l = record {
    peer1 = l.source_name ++ b'.' ∷ decimal l.target_id;
    peer2 = l.target_name ++ b'.' ∷ decimal l.source_id;
    peer1qos = qos l (link_capacities_for s l).0;
    peer2qos = qos l (link_capacities_for s l).1;
  }

  abbrev pub if_open : Option Text → (Text → Order) → Act (Launcher K) (Unit {0})
  if_open none order = pure tt
  if_open (some id) order = rescue (ask server (order id) >> pure tt) (λ _. pure tt)

  -- `update_link`, `add_link` and `delete_link`
  unfoldable pub update_link : WireLink → Act (Launcher K) (Unit {0})
  unfolding link_config
  update_link l = do
    id ← gets open_request
    config ← gets (λ s. link_config s l)
    if_open id (λ r. link_update r config)

  unfoldable pub add_link : WireLink → Act (Launcher K) (Unit {0})
  unfolding link_config
  add_link l = do
    id ← gets open_request
    config ← gets (λ s. link_config s l)
    if_open id (λ r. link_add r config)

  unfoldable pub delete_link : WireLink → Act (Launcher K) (Unit {0})
  unfolding link_config
  delete_link l = do
    id ← gets open_request
    config ← gets (λ s. link_config s l)
    if_open id (λ r. link_del r config)

  abbrev pub kind_capacity : ℕ → ℕ → ℕ → Text → ℕ
  kind_capacity isl_kbps gnd_kbps ground_object_kbps type =
      if type == codes "GroundStationLink"
      then gnd_kbps
      else if type == codes "GroundObjectLink"
      then ground_object_kbps
      else isl_kbps

  abbrev pub with_capacity : ℕ → WireLink → WireLink
  with_capacity kbps l =
      if l.use_budget
      then l
      else record l { default_capacity_kbps = kbps; peer1_capacity = kbps; peer2_capacity = kbps }

  abbrev pub updated_links : ℕ → ℕ → List WireLink → Act (Launcher K) (List WireLink)
  updated_links isl_kbps gnd_kbps [] = pure []
  updated_links isl_kbps gnd_kbps (l ∷ ls) = do
    ground_object_kbps ← gets (λ s. s.ground_object_capacity_kbps)
    let new = with_capacity (kind_capacity isl_kbps gnd_kbps ground_object_kbps l.type) l
    _ ← update_link new
    rest ← updated_links isl_kbps gnd_kbps ls
    pure (new ∷ rest)

  -- `set_link_capacities`, with the links as it leaves them
  unfoldable pub set_link_capacities : ℕ → ℕ → List WireLink → Act (Launcher K) (List WireLink)
  unfolding update_link
  set_link_capacities isl_kbps gnd_kbps links = do
    _ ← writes (λ s. record s { isl_capacity_kbps = isl_kbps; gnd_capacity_kbps = gnd_kbps }) tt
    updated_links isl_kbps gnd_kbps links
