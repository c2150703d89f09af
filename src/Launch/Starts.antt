-- ===== src/Launch/Starts.antt =====
-- The launcher after `start_containers`, whether it succeeded or not
-- (launchers/gonetem_launcher.py).
use satgonetem.Base.{ℕ, ◌≡◌, refl, Bool, true, false, not, none, some, [], ◌∷◌, Text, runtime_error}
use satgonetem.Acts.{Act, pure, fail, writes, when, ◌>>=◌, ◌>>◌}
use satgonetem.Acts.Keeps.{Keeps, keeping}
use satgonetem.Acts.Leads.{
  Post, Leads, Anything, Leads_of_Keeps, Leads-weaker, pure-Leads, fail-Leads, writes-Leads,
  rescue-Leads, ensure-Leads, >>=-Leads, Leads_anywhere, gets-Leads, when-Leads,
}
use satgonetem.Launch.{
  write_project, remove_file, project_open, open_channel, close_channel, Reply, nothing,
  id_of_project, messages, closings, process, Server, Launcher, no_transport, ask,
}
use satgonetem.Launch.Projects.{
  get_client, close_transport, force_close_project, cleanup_failed_start, project_of,
  as_runtime_error, connect, run_project, open_and_run, remove_project_file, or_clean_up, with_file,
  start_containers,
}
use satgonetem.Launch.Rules.{
  IsInner, ask-Inner, call_back-Inner, follow_reply-Inner, inner-Leads, quiet-Leads,
}

-- Nothing is left of a start: neither the channel and the client nor the project.
abbrev pub IsClosed : {K : Type 0} → Launcher K → Type 0
IsClosed s = (s.channel ≡ false) × (s.client ≡ false) × (s.request ≡ none)

-- The client is there, with a project that the topology manager knows too.
pub record IsStarted {K : Type 0} (s : Launcher K) : Type 0 where
  pub first : ℕ
  pub rest : Text
  pub has_client : s.client ≡ true
  pub has_request : s.request ≡ some (first ∷ rest)
  pub has_project : s.project_id ≡ some (first ∷ rest)

module _ {K : Type 0} (server : Server K) (has_callback : Bool) where
  abbrev NoTransport : Launcher K → Type 0
  NoTransport s = (s.channel ≡ false) × (s.client ≡ false)

  close_transport-Leads :
      (F : Launcher K → Type 0)
      → Leads Anything (close_transport server has_callback) (λ _. NoTransport) F
  unfolding close_transport
  close_transport-Leads F =
      >>=-Leads Anything (λ _. Anything) (λ _. NoTransport) F _ _
        (gets-Leads Anything (λ _. Anything) F (λ s. s.channel) (λ s h. tt))
        (λ there.
          >>=-Leads Anything (λ _. Anything) (λ _. NoTransport) F _ _
            (when-Leads Anything Anything F there _
              (quiet-Leads server has_callback F (ask server close_channel >> pure tt)) (λ s h. tt))
            (λ _. writes-Leads Anything (λ _. NoTransport) F no_transport tt (λ s h. (refl, refl))))

  cleanup-Leads : Leads Anything (cleanup_failed_start server has_callback) (λ _. IsClosed) IsClosed
  unfolding cleanup_failed_start
  cleanup-Leads =
      let closes : Leads Anything
          (close_transport server has_callback >> writes (λ s. record s { request = none }) tt)
          (λ _. IsClosed) IsClosed =
        >>=-Leads Anything (λ _. NoTransport) (λ _. IsClosed) IsClosed _ _
          (close_transport-Leads IsClosed)
          (λ _. writes-Leads NoTransport (λ _. IsClosed) IsClosed _ tt (λ s h. (h.0, h.1, refl))) in
      ensure-Leads Anything (λ _. Anything) (λ _. IsClosed) Anything IsClosed _ _
        (quiet-Leads server has_callback Anything (force_close_project server has_callback))
        (λ _. closes) closes

  -- A part of `start_containers` with its clean-up.
  or_clean_up-Leads :
      (P Q : Launcher K → Type 0) (act : Act (Launcher K) (Unit {0}))
      → Leads P act (λ _. Q) Anything
      → Leads P (or_clean_up server has_callback act) (λ _. Q) IsClosed
  or_clean_up-Leads P Q act l =
      rescue-Leads P (λ _. Q) Anything IsClosed act _ l
        (λ x.
          >>=-Leads Anything (λ _. IsClosed) (λ _. Q) IsClosed _ _ cleanup-Leads
            (λ _. fail-Leads (λ _. Q) IsClosed x))

  abbrev HasClient : Launcher K → Type 0
  HasClient s = s.client ≡ true

  opened-Leads :
      (there : Bool)
      → Leads
          (λ s. s.client ≡ there)
          (when (not there) (
            ask server open_channel >>= λ _.
            writes (λ s. record s { channel = true; client = true }) tt))
          (λ _. HasClient)
          Anything
  opened-Leads true = pure-Leads (λ s. s.client ≡ true) (λ _. HasClient) Anything tt (λ s h. h)
  opened-Leads false =
      >>=-Leads (λ s. s.client ≡ false) (λ _. Anything) (λ _. HasClient) Anything _ _
        (Leads_anywhere (λ s. s.client ≡ false) (ask server open_channel))
        (λ _. writes-Leads Anything (λ _. HasClient) Anything _ tt (λ s h. refl))

  get_client-Leads : Leads Anything (get_client server has_callback) (λ _. HasClient) Anything
  unfolding get_client
  get_client-Leads =
      >>=-Leads Anything (λ there s. s.client ≡ there) (λ _. HasClient) Anything _ _
        (gets-Leads Anything (λ there s. s.client ≡ there) Anything (λ s. s.client) (λ s h. refl))
        opened-Leads

  runtime-Leads :
      (P : Launcher K → Type 0) (act : Act (Launcher K) (Unit {0}))
      → Keeps P act
      → Leads P (as_runtime_error server has_callback act) (λ _. P) Anything
  runtime-Leads P act k =
      inner-Leads server has_callback P (as_runtime_error server has_callback act)
        (search (keeping, k))

  connect-Leads : Leads Anything (connect server has_callback) (λ _. HasClient) Anything
  connect-Leads =
      >>=-Leads Anything (λ _. HasClient) (λ _. HasClient) Anything _ _ get_client-Leads
        (λ _.
          runtime-Leads HasClient _
            (search (keeping, ask-Inner server has_callback HasClient (λ s k h. h))))

  -- The project is the one that the server named.
  abbrev HasRequest : ℕ → Text → Launcher K → Type 0
  HasRequest c id s = (s.client ≡ true) × (s.request ≡ some (c ∷ id))

  abbrev HasProject : ℕ → Text → Launcher K → Type 0
  HasProject c id s =
      (s.client ≡ true) × (s.request ≡ some (c ∷ id)) × (s.project_id ≡ some (c ∷ id))

  started : (c : ℕ) (id : Text) (s : Launcher K) → HasProject c id s → IsStarted s
  started c id s h = record {
    first = c;
    rest = id;
    has_client = h.0;
    has_request = h.1;
    has_project = h.2;
  }

  run_project-Leads :
      (c : ℕ) (id : Text)
      → Leads HasClient (run_project server has_callback (c ∷ id)) (λ _. IsStarted) Anything
  run_project-Leads c id =
      >>=-Leads HasClient (λ _. HasRequest c id) (λ _. IsStarted) Anything _ _
        (writes-Leads HasClient (λ _. HasRequest c id) Anything _ tt (λ s h. (h, refl)))
        (λ _.
          >>=-Leads (HasRequest c id) (λ _. HasRequest c id) (λ _. IsStarted) Anything _ _
            (runtime-Leads (HasRequest c id) _ (
              search (
                keeping,
                ask-Inner server has_callback (HasRequest c id) (λ s k h. h),
                follow_reply-Inner server has_callback (HasRequest c id) (λ s k h. h),
              )))
            (λ _.
              >>=-Leads (HasRequest c id) (λ _. HasRequest c id) (λ _. IsStarted) Anything _ _
                (inner-Leads server has_callback (HasRequest c id) _
                  (call_back-Inner server has_callback (HasRequest c id) (λ s k h. h) _ _ _))
                (λ _.
                  >>=-Leads (HasRequest c id) (λ _. HasProject c id) (λ _. IsStarted) Anything _ _
                    (writes-Leads (HasRequest c id) (λ _. HasProject c id) Anything _ tt
                      (λ s h. (h.0, h.1, refl)))
                    (λ _.
                      Leads-weaker (HasProject c id) (λ _. HasProject c id) (λ _. IsStarted)
                        Anything Anything _ (λ a s h. started c id s h) (λ s h. tt)
                        (inner-Leads server has_callback (HasProject c id) _ (
                          search
                            (keeping, ask-Inner server has_callback (HasProject c id) (λ s k h. h))
                            depth 10))))))

  abbrev Filled : Text → Launcher K → Type 0
  Filled [] s = ⊥
  Filled (c ∷ id) s = s.client ≡ true

  refused : Leads HasClient (fail runtime_error) Filled Anything
  refused =
      Leads-weaker HasClient Filled Filled Anything Anything _ (λ a s h. h) (λ s h. h)
        (record { leads = λ s h. (fail-Leads Filled Anything runtime_error).leads s tt })

  project_of-Leads :
      (r : Reply) → Leads HasClient (project_of server has_callback r) Filled Anything
  project_of-Leads (id_of_project (c ∷ id)) = pure-Leads HasClient Filled Anything _ (λ s h. h)
  project_of-Leads (id_of_project []) = refused
  project_of-Leads nothing = refused
  project_of-Leads (messages ms e) = refused
  project_of-Leads (closings ms e) = refused
  project_of-Leads (process n t) = refused

  run-Filled :
      (id : Text) → Leads (Filled id) (run_project server has_callback id) (λ _. IsStarted) Anything
  run-Filled [] = record { leads = λ s h. absurd h }
  run-Filled (c ∷ id) = run_project-Leads c id

  open_and_run-Leads : Leads HasClient (open_and_run server has_callback) (λ _. IsStarted) Anything
  open_and_run-Leads =
      >>=-Leads HasClient (λ _. HasClient) (λ _. IsStarted) Anything _ _
        (gets-Leads HasClient (λ _. HasClient) Anything _ (λ s h. h))
        (λ name.
          >>=-Leads HasClient (λ _. HasClient) (λ _. IsStarted) Anything _ _
            (inner-Leads server has_callback HasClient _
              (ask-Inner server has_callback HasClient (λ s k h. h) (project_open name)))
            (λ reply.
              >>=-Leads HasClient Filled (λ _. IsStarted) Anything _ _ (project_of-Leads reply)
                run-Filled))

  IsStarted-Inner : IsInner {K = K} IsStarted
  IsStarted-Inner s k h = record {
    first = h.first;
    rest = h.rest;
    has_client = h.has_client;
    has_request = h.has_request;
    has_project = h.has_project;
  }

  remove_file-Leads :
      (P F : Launcher K → Type 0)
      → IsInner P
      → Leads P (remove_project_file server has_callback) (λ _. P) F
  remove_file-Leads P F inner =
      rescue-Leads P (λ _. P) P F _ _
        (Leads_of_Keeps P (ask server remove_file >> pure tt)
          (search (keeping, ask-Inner server has_callback P inner)))
        (λ x. pure-Leads P (λ _. P) F tt (λ s h. h))

  with_file-Leads : Leads HasClient (with_file server has_callback) (λ _. IsStarted) IsClosed
  with_file-Leads =
      ensure-Leads HasClient (λ _. IsStarted) (λ _. IsStarted) IsClosed IsClosed _ _
        (or_clean_up-Leads HasClient IsStarted _ open_and_run-Leads)
        (λ _. remove_file-Leads IsStarted IsClosed IsStarted-Inner)
        (remove_file-Leads IsClosed IsClosed (λ s k h. h))

  prepared :
      Leads Anything
        (connect server has_callback >> ask server write_project >> pure tt)
        (λ _. HasClient)
        Anything
  prepared =
      >>=-Leads Anything (λ _. HasClient) (λ _. HasClient) Anything _ _
        (>>=-Leads Anything (λ _. HasClient) (λ _. HasClient) Anything _ _ connect-Leads
          (λ _.
            inner-Leads server has_callback HasClient _
              (ask-Inner server has_callback HasClient (λ s k h. h) write_project)))
        (λ _. pure-Leads HasClient (λ _. HasClient) Anything tt (λ s h. h))

  -- Whatever the launcher's state was, and whatever the server, Docker and the callback answer or
  -- raise: if `start_containers` returns, then there is a client, and the project, whose identifier
  -- is not empty, is the current one and is known to the topology manager; and if it raises, then
  -- there is neither a channel nor a client nor a current project.
  pub start_containers_lem :
      (s : Launcher K) → Post (λ _. IsStarted) IsClosed (start_containers server has_callback s)
  unfolding start_containers
  start_containers_lem s =
      (>>=-Leads Anything (λ _. HasClient) (λ _. IsStarted) IsClosed _ _
          (or_clean_up-Leads Anything HasClient _ prepared) (λ _. with_file-Leads)).leads
        s tt
