-- ===== src/Launch/Projects.antt =====
-- Projects of the launcher: start, close and clean-up (launchers/gonetem_launcher.py).
use satgonetem.Base.{
  ℕ, zero, ◌+◌, Bool, true, not, Option, none, some, List, [], ◌∷◌, Text, codes, Exception,
  runtime_error,
}
use satgonetem.Acts.{Act, pure, fail, gets, writes, rescue, ensure, each, when, ◌>>=◌, ◌>>◌}
use satgonetem.Launch.Containers.{parse_project_containers}
use satgonetem.Launch.{
  Message, node_count, link_count, node_start, link_setup, node_loadconfig, other, Closing,
  closing_count, node_close, other_close, Order, open_channel, close_channel, get_version,
  write_project, remove_file, project_open, topology_run, project_close, docker_ps, docker_stop,
  docker_rm, attach_containers, progress_cb, Reply, id_of_project, messages, closings, process,
  Server, Launcher, Progress, open_request, no_transport, ask,
}

-- What is known when the stream of `close_project` ends.
pub record Closed : Type 0 where
  pub closed : ℕ
  pub total : ℕ
  pub failure : Option Exception

abbrev pub no_progress : Progress
no_progress = record { nodes = 0; links = 0; started = 0; set_up = 0; configured = 0 }

-- The counters after one message of the run.
abbrev pub advance : Message → Progress → Progress
advance (node_count n) p = record p { nodes = n }
advance (link_count n) p = record p { links = n }
advance node_start p = record p { started = p.started + 1 }
advance link_setup p = record p { set_up = p.set_up + 1 }
advance node_loadconfig p = record p { configured = p.configured + 1 }
advance other p = p

module _ {K : Type 0} (server : Server K) (has_callback : Bool) where
  -- `if progress_cb: progress_cb(...)`
  abbrev pub call_back : Text → ℕ → ℕ → Act (Launcher K) (Unit {0})
  call_back code done total =
      when has_callback (ask server (progress_cb code done total) >> pure tt)

  -- What the callback is told about a message, with the counters after it.
  abbrev pub tell : Message → Progress → Act (Launcher K) (Unit {0})
  tell (node_count n) p = call_back (codes "NODE_COUNT") 0 p.nodes
  tell (link_count n) p = call_back (codes "LINK_COUNT") 0 p.links
  tell node_start p = call_back (codes "NODE_START") p.started p.nodes
  tell link_setup p = call_back (codes "LINK_SETUP") p.set_up p.links
  tell node_loadconfig p = call_back (codes "NODE_LOADCONFIG") p.configured p.nodes
  tell other p = pure tt

  abbrev pub finish_stream : Option Exception → Act (Launcher K) (Unit {0})
  finish_stream none = pure tt
  finish_stream (some x) = fail x

  abbrev pub follow : Progress → List Message → Option Exception → Act (Launcher K) (Unit {0})
  follow p [] end_of_stream = finish_stream end_of_stream
  follow p (m ∷ ms) end_of_stream = tell m (advance m p) >> follow (advance m p) ms end_of_stream

  abbrev pub follow_reply : Reply → Act (Launcher K) (Unit {0})
  follow_reply (messages ms end_of_stream) = follow no_progress ms end_of_stream
  follow_reply _ = pure tt

  -- `_get_client`
  unfoldable pub get_client : Act (Launcher K) (Unit {0})
  get_client = do
    there ← gets (λ s. s.client)
    when (not there) (do
      _ ← ask server open_channel
      writes (λ s. record s { channel = true; client = true }) tt)

  -- `_close_transport`
  unfoldable pub close_transport : Act (Launcher K) (Unit {0})
  close_transport = do
    there ← gets (λ s. s.channel)
    _ ← when there (rescue (ask server close_channel >> pure tt) (λ _. pure tt))
    writes no_transport tt

  -- `_run_docker_command`; its callers do not read the answer
  abbrev pub run_docker_command : Order → Act (Launcher K) (Unit {0})
  run_docker_command q = rescue (ask server q >> pure tt) (λ _. pure tt)

  abbrev pub listed : Text → Reply → List Text
  listed project_id (process zero stdout) = parse_project_containers stdout project_id
  listed project_id _ = []

  -- `_list_project_containers`
  unfoldable pub list_project_containers : Text → Act (Launcher K) (List Text)
  list_project_containers project_id =
      rescue (ask server docker_ps >>= λ r. pure (listed project_id r)) (λ _. pure [])

  -- The body of the `try` of `force_close_project`
  abbrev pub remove_containers : Text → Act (Launcher K) (Unit {0})
  remove_containers [] = pure tt
  remove_containers (c ∷ id) = do
    ids ← list_project_containers (c ∷ id)
    _ ← each (λ cid. run_docker_command (docker_stop cid)) ids
    _ ← each (λ cid. run_docker_command (docker_rm cid)) ids
    ask server (project_close (c ∷ id)) >> pure tt

  abbrev pub force_close : Option Text → Act (Launcher K) (Unit {0})
  force_close none = pure tt
  force_close (some project_id) =
      ensure (rescue (remove_containers project_id) (λ _. pure tt)) close_transport

  -- `force_close_project`
  unfoldable pub force_close_project : Act (Launcher K) (Unit {0})
  unfolding list_project_containers close_transport
  force_close_project = gets open_request >>= force_close

  -- `_cleanup_failed_start`
  unfoldable pub cleanup_failed_start : Act (Launcher K) (Unit {0})
  unfolding force_close_project
  cleanup_failed_start =
      ensure (rescue force_close_project (λ _. pure tt))
        (close_transport >> writes (λ s. record s { request = none }) tt)

  -- `if not project_id: raise RuntimeError(...)`
  abbrev pub project_of : Reply → Act (Launcher K) Text
  project_of (id_of_project (c ∷ id)) = pure (c ∷ id)
  project_of _ = fail runtime_error

  abbrev pub as_runtime_error : {A : Type 0} → Act (Launcher K) A → Act (Launcher K) A
  as_runtime_error act = rescue act (λ _. fail runtime_error)

  -- The body of the `try` of `start_containers`, up to the file of the project and after it. The
  -- identifier is set on the topology manager when the topology runs.
  abbrev pub connect : Act (Launcher K) (Unit {0})
  connect = get_client >> as_runtime_error (ask server get_version >> pure tt)

  abbrev pub run_project : Text → Act (Launcher K) (Unit {0})
  run_project id = do
    _ ← writes (λ s. record s { request = some id }) tt
    _ ← as_runtime_error (ask server (topology_run id) >>= follow_reply)
    _ ← call_back (codes "COMPLETED") 0 0
    _ ← writes (λ s. record s { project_id = some id }) tt
    ask server (attach_containers id) >> pure tt

  abbrev pub open_and_run : Act (Launcher K) (Unit {0})
  open_and_run = do
    name ← gets (λ s. s.project_name)
    reply ← ask server (project_open name)
    id ← project_of reply
    run_project id

  abbrev pub remove_project_file : Act (Launcher K) (Unit {0})
  remove_project_file = rescue (ask server remove_file >> pure tt) (λ _. pure tt)

  -- `except Exception: self._cleanup_failed_start(); raise`
  abbrev pub or_clean_up : Act (Launcher K) (Unit {0}) → Act (Launcher K) (Unit {0})
  or_clean_up act = rescue act (λ x. cleanup_failed_start >> fail x)

  abbrev pub with_file : Act (Launcher K) (Unit {0})
  with_file = ensure (or_clean_up open_and_run) remove_project_file

  -- `start_containers`, without the times. The file is removed if it was written.
  unfoldable pub start_containers : Act (Launcher K) (Unit {0})
  unfolding get_client cleanup_failed_start
  start_containers = or_clean_up (connect >> ask server write_project >> pure tt) >> with_file

  -- An act whose exception becomes a value.
  abbrev pub attempt : Act (Launcher K) (Unit {0}) → Act (Launcher K) (Option Exception)
  attempt act = rescue (act >> pure none) (λ x. pure (some x))

  abbrev pub go_on : Option Exception → ℕ → ℕ → Act (Launcher K) Closed → Act (Launcher K) Closed
  go_on none closed total act = act
  go_on (some x) closed total act =
      pure (record { closed = closed; total = total; failure = some x })

  abbrev pub close_follow : ℕ → ℕ → List Closing → Option Exception → Act (Launcher K) Closed
  close_follow closed total [] failure =
      pure (record { closed = closed; total = total; failure = failure })
  close_follow closed total (closing_count n ∷ ms) e =
      attempt (call_back (codes "CLOSE_NODE_COUNT") 0 n) >>= λ o.
      go_on o closed n (close_follow closed n ms e)
  close_follow closed total (node_close ∷ ms) e =
      attempt (call_back (codes "CLOSE_NODE_CLOSE") (closed + 1) total) >>= λ o.
      go_on o (closed + 1) total (close_follow (closed + 1) total ms e)
  close_follow closed total (other_close ∷ ms) e = close_follow closed total ms e

  abbrev pub close_reply : Reply → Act (Launcher K) Closed
  close_reply (closings ms end_of_stream) = close_follow 0 0 ms end_of_stream
  close_reply _ = pure (record { closed = 0; total = 0; failure = none })

  abbrev pub report_failure : Option Exception → Act (Launcher K) (Unit {0})
  report_failure none = pure tt
  report_failure (some x) = call_back (codes "CLOSE_ERROR") 0 0 >> fail x

  -- The `finally` of `close_project`
  abbrev pub finish_close : ℕ → ℕ → Act (Launcher K) (Unit {0})
  finish_close closed total = do
    there ← gets (λ s. s.channel)
    _ ← when there (ask server close_channel >> writes no_transport tt)
    call_back (codes "CLOSE_COMPLETED") closed total

  abbrev pub close_open : Option Text → Act (Launcher K) (Unit {0})
  close_open none = pure tt
  close_open (some id) = do
    r ←
        rescue (ask server (project_close id) >>= close_reply)
          (λ x. pure (record { closed = 0; total = 0; failure = some x }))
    ensure (report_failure r.failure) (finish_close r.closed r.total)

  -- `close_project`
  unfoldable pub close_project : Act (Launcher K) (Unit {0})
  close_project = gets open_request >>= close_open
