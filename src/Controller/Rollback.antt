-- ===== src/Controller/Rollback.antt =====
-- The link of the host to the switch of the controller, made or rolled back
-- (services/mixins/controller.py).
use satgonetem.Base.{
  ℕ, zero, suc, ◌≡◌, refl, ap, ◌∙◌, Bool, true, false, Option, none, some, List, [], ◌∷◌, Text,
  Result, ok, raise,
}
use satgonetem.Acts.{Act, ◌>>=◌}
use satgonetem.Acts.Ends.{IsOk}
use satgonetem.Acts.Leads.{Post, Leads, Anything, pure-Leads, fail-Leads, rescue-Leads, >>=-Leads}
use satgonetem.Controller.{
  Command, Shell, Plane, found_container, run_command, list_containers, find_container, remove_port,
  delete_veth, add_address, make_veth, remove_controller_veth, next_if, run_checked, join_namespace,
  link_up, or_roll_back, connect_container, setup_controller_connection,
  cleanup_controller_connection,
}

-- What is relied on of the commands: each is answered, deleting the veth of the host leads to where
-- it is down, looking for a container leaves it down, and adding the address, when it succeeds, leads
-- to where it is up.
pub record IsHost {K : Type 0} (shell : Shell K) (plane : Plane) (Up Down : K → Type 0)
    : Type 0 where
  pub answers : (c : Command) (k : K) → IsOk (shell c k).1
  pub deletes : (k : K) → Down (shell (delete_veth plane) k).0
  pub finds : (k : K) → Down k → Down (shell list_containers k).0
  pub adds :
      (k : K) (out : Text)
      → (shell (add_address plane) k).1 ≡ ok (0, out)
      → Up (shell (add_address plane) k).0

answered :
    {K A : Type 0} (Q : A → K → Type 0) (E : K → Type 0) (r : K × Result A)
    → IsOk r.1
    → ((a : A) → r.1 ≡ ok a → Q a r.0)
    → Post Q E r
answered Q E (k, ok a) d q = q a refl
answered Q E (k, raise x) (a, e) q = cc

module _ {K : Type 0} (shell : Shell K) (plane : Plane) (Up Down E : K → Type 0)
    (host : IsHost shell plane Up Down) where
  run_command-Leads :
      (P : K → Type 0) (Q : ℕ × Text → K → Type 0) (c : Command)
      → ((k : K) (r : ℕ × Text) → P k → (shell c k).1 ≡ ok r → Q r (shell c k).0)
      → Leads P (run_command shell plane c) Q E
  unfolding run_command
  run_command-Leads P Q c q = record {
    leads = λ k h. answered Q E (shell c k) (host.answers c k) (λ r e. q k r h e);
  }

  run_command-Anything :
      (P : K → Type 0) (c : Command) → Leads P (run_command shell plane c) (λ _. Anything) E
  run_command-Anything P c = run_command-Leads P (λ _. Anything) c (λ k r h e. tt)

  remove_port-Leads :
      (P : K → Type 0) (cid : Option Text) → Leads P (remove_port shell plane cid) (λ _. Anything) E
  remove_port-Leads P none = pure-Leads P (λ _. Anything) E tt (λ k h. tt)
  remove_port-Leads P (some cid) =
      >>=-Leads P (λ _. Anything) (λ _. Anything) E _ _ (run_command-Anything P _)
        (λ _. pure-Leads Anything (λ _. Anything) E tt (λ k h. tt))

  remove_controller_veth-Leads :
      (P : K → Type 0) (cid : Option Text)
      → Leads P (remove_controller_veth shell plane cid) (λ _. Down) E
  unfolding remove_controller_veth
  remove_controller_veth-Leads P cid =
      >>=-Leads P (λ _. Down) (λ _. Down) E _ _
        (>>=-Leads P (λ _. Anything) (λ _. Down) E _ _ (remove_port-Leads P cid)
          (λ _. run_command-Leads Anything (λ _. Down) _ (λ k r h e. host.deletes k)))
        (λ _. pure-Leads Down (λ _. Down) E tt (λ k h. h))

  -- A command and those after it, which do not run where it fails.
  next-Leads :
      (P : K → Type 0) (Q : Bool → K → Type 0) (c : Command) (rest : Act K Bool)
      → ((k : K) → Q false k)
      → Leads Anything rest Q E
      → Leads P (run_command shell plane c >>= λ r. next_if shell plane r.0 rest) Q E
  next-Leads P Q c rest stops l =
      >>=-Leads P (λ _. Anything) Q E _ _ (run_command-Anything P c) (λ r. after r.0)
    where
      after : (n : ℕ) → Leads Anything (next_if shell plane n rest) Q E
      after zero = l
      after (suc n) = pure-Leads Anything Q E false (λ k h. stops k)

  run_checked-Leads :
      (P : K → Type 0) (cs : List Command) → Leads P (run_checked shell plane cs) (λ _. Anything) E
  run_checked-Leads P [] = pure-Leads P (λ _. Anything) E true (λ k h. tt)
  run_checked-Leads P (c ∷ cs) =
      next-Leads P (λ _. Anything) c _ (λ k. tt) (run_checked-Leads Anything cs)

  -- Where all commands succeeded, the host is up.
  abbrev UpIf : Bool → K → Type 0
  UpIf done k = done ≡ true → Up k

  not_done : (k : K) → UpIf false k
  not_done k e = absurd cc

  add_address-Leads : Leads Anything (run_checked shell plane (add_address plane ∷ [])) UpIf E
  add_address-Leads =
      >>=-Leads Anything (λ r k. r.0 ≡ 0 → Up k) UpIf E _ _
        (run_command-Leads Anything (λ r k. r.0 ≡ 0 → Up k) _ added) (λ r. last r.0)
    where
      added :
          (k : K) (r : ℕ × Text)
          → Anything k
          → (shell (add_address plane) k).1 ≡ ok r
          → r.0 ≡ 0
          → Up (shell (add_address plane) k).0
      added k (n, out) h e none_failed = host.adds k out (e ∙ ap (λ m. ok (m, out)) none_failed)

      last :
          (n : ℕ)
          → Leads (λ k. n ≡ 0 → Up k) (next_if shell plane n (run_checked shell plane [])) UpIf E
      last zero = pure-Leads (λ k. 0 ≡ 0 → Up k) UpIf E true (λ k h e. h refl)
      last (suc n) = pure-Leads (λ k. suc n ≡ 0 → Up k) UpIf E false (λ k h. not_done k)

  join_namespace-Leads :
      (cid : Text) (r : ℕ × Text) → Leads Anything (join_namespace shell plane cid r) UpIf E
  join_namespace-Leads cid (suc n, out) = pure-Leads Anything UpIf E false (λ k h. not_done k)
  join_namespace-Leads cid (zero, out) = next-Leads Anything UpIf _ _ not_done (
      next-Leads Anything UpIf _ _ not_done
        (next-Leads Anything UpIf _ _ not_done add_address-Leads))

  link_up-Leads : (cid : Text) (b : Bool) → Leads Anything (link_up shell plane cid b) UpIf E
  link_up-Leads cid false = pure-Leads Anything UpIf E false (λ k h. not_done k)
  link_up-Leads cid true =
      >>=-Leads Anything (λ _. Anything) UpIf E _ _ (run_command-Anything Anything _)
        (join_namespace-Leads cid)

  find_container-Leads : Leads Down (find_container shell plane) (λ _. Down) E
  find_container-Leads =
      >>=-Leads Down (λ _. Down) (λ _. Down) E _ _
        (run_command-Leads Down (λ _. Down) _ (λ k r h e. host.finds k h))
        (λ r. pure-Leads Down (λ _. Down) E (found_container r) (λ k h. h))

  cleanup_controller_connection-Leads :
      Leads Anything (cleanup_controller_connection shell plane) (λ _. Down) E
  unfolding cleanup_controller_connection
  cleanup_controller_connection-Leads =
      >>=-Leads Anything (λ _. Anything) (λ _. Down) E _ _
        (>>=-Leads Anything (λ _. Anything) (λ _. Anything) E _ _ (run_command-Anything Anything _)
          (λ r. pure-Leads Anything (λ _. Anything) E (found_container r) (λ k h. tt)))
        (remove_controller_veth-Leads Anything)

module _ {K : Type 0} (shell : Shell K) (plane : Plane) (Up Down : K → Type 0)
    (host : IsHost shell plane Up Down) where
  or_roll_back-Leads :
      (cid : Text) (b : Bool)
      → Leads (λ k. b ≡ true → Up k) (or_roll_back shell plane cid b) (λ _. Up) Down
  or_roll_back-Leads cid true =
      pure-Leads (λ k. true ≡ true → Up k) (λ _. Up) Down tt (λ k h. h refl)
  or_roll_back-Leads cid false =
      >>=-Leads (λ k. false ≡ true → Up k) (λ _. Down) (λ _. Up) Down _ _
        (rescue-Leads (λ k. false ≡ true → Up k) (λ _. Down) Down Down _ _
          (remove_controller_veth-Leads shell plane Up Down Down host _ (some cid))
          (λ x. pure-Leads Down (λ _. Down) Down tt (λ k h. h)))
        (λ _. fail-Leads (λ _. Up) Down _)

  connect_container-Leads :
      (found : Option Text) → Leads Down (connect_container shell plane found) (λ _. Up) Down
  connect_container-Leads none = fail-Leads (λ _. Up) Down _
  connect_container-Leads (some cid) =
      >>=-Leads Down (λ done k. done ≡ true → Up k) (λ _. Up) Down _ _
        (>>=-Leads Down (λ _. Anything) (λ done k. done ≡ true → Up k) Down _ _
          (run_checked-Leads shell plane Up Down Down host Down (make_veth plane))
          (link_up-Leads shell plane Up Down Down host cid))
        (or_roll_back-Leads cid)

  setup_controller_connection-Leads :
      Leads Down (setup_controller_connection shell plane) (λ _. Up) Down
  unfolding setup_controller_connection
  setup_controller_connection-Leads =
      >>=-Leads Down (λ _. Down) (λ _. Up) Down _ _
        (find_container-Leads shell plane Up Down Down host) connect_container-Leads

returned :
    {K A : Type 0} (Q : K → Type 0) (r : K × Result A)
    → Post (λ _. Q) (λ _. true ≡ false) r
    → IsOk r.1 × Q r.0
returned Q (k, ok a) h = ((a, refl), h)
returned Q (k, raise x) h = absurd cc

-- Every command is answered, looking for a container changes nothing that is down, deleting the
-- veth of the host brings it down, and adding its address, where this succeeds, brings it up. If
-- the host is down, then after `setup_controller_connection` it is up, or this raised and the host
-- is down; and `cleanup_controller_connection` then raises nothing and leaves the host down.
pub setup_controller_connection_lem :
    {K : Type 0} (shell : Shell K) (plane : Plane) (Up Down : K → Type 0)
    (host : IsHost shell plane Up Down) (k : K)
    → Down k
    → Post (λ _. Up) Down (setup_controller_connection shell plane k)
      × (let left = (setup_controller_connection shell plane k).0 in
          IsOk (cleanup_controller_connection shell plane left).1
          × Down (cleanup_controller_connection shell plane left).0)
setup_controller_connection_lem shell plane Up Down host k down =
    let setup : Leads Down (setup_controller_connection shell plane) (λ _. Up) Down =
      setup_controller_connection-Leads shell plane Up Down host in
    let cleanup : Leads Anything (cleanup_controller_connection shell plane) (λ _. Down)
        (λ _. true ≡ false) =
      cleanup_controller_connection-Leads shell plane Up Down (λ _. true ≡ false) host in
    (
      setup.leads k down,
      returned Down _ (cleanup.leads (setup_controller_connection shell plane k).0 tt),
    )
