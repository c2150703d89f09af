-- ===== src/Tests/Launch.antt =====
-- The launcher at concrete inputs (launchers/gonetem_launcher.py).
use satgonetem.Base.{
  left_strip, right_strip, ℕ, ◌+◌, ◌≡◌, refl, Bool, true, false, none, some, List, [], ◌∷◌, codes,
  ok, raise, value_error, runtime_error, map, filter, ◌==◌, text_eq,
}
use satgonetem.Acts.{◌>>=◌}
use satgonetem.Acts.Leads.{Post}
use satgonetem.Launch.{
  project_open, topology_run, docker_ps, docker_stop, nothing, id_of_project, messages, process,
  node_count, node_start, Server, Launcher, ask,
}
use satgonetem.Launch.Containers.{parse_project_containers}
use satgonetem.Launch.Listing.{Container, listing, parse_project_containers-listing}
use satgonetem.Launch.Projects.{start_containers}
use satgonetem.Launch.Starts.{IsStarted, IsClosed, start_containers_lem}

-- Two projects, of which one begins like the other.
abbrev containers : List Container
containers =
    record { container_id = codes "a1"; project = codes "x7"; node = codes "Sat1" }
    ∷ record { container_id = codes "b2"; project = codes "x71"; node = codes "Sat1" }
    ∷ record { container_id = codes "c3"; project = codes "x7"; node = codes "Gnd2" }
    ∷ []

parse_project_containers_runs :
    parse_project_containers (listing containers) (codes "x7") ≡ codes "a1" ∷ codes "c3" ∷ []
unfolding parse_project_containers left_strip right_strip
parse_project_containers_runs = refl

parse_project_containers-listing_example :
    parse_project_containers (listing containers) (codes "x7")
    ≡ map (λ c. c.container_id) (filter (λ c. c.project == codes "x7") containers)
parse_project_containers-listing_example =
    parse_project_containers-listing containers (codes "x7") refl refl

-- A server whose topology does or does not run; orders to stop containers are counted.
unfoldable counting : Bool → Server ℕ
counting runs (project_open name) k = (k, ok (id_of_project (codes "x7")))
counting true (topology_run id) k = (k, ok (messages (node_count 1 ∷ node_start ∷ []) none))
counting false (topology_run id) k = (k, ok (messages (node_count 1 ∷ []) (some value_error)))
counting runs docker_ps k = (k, ok (process 0 (listing containers)))
counting runs (docker_stop cid) k = (k + 1, ok nothing)
counting runs _ k = (k, ok nothing)

abbrev idle : Launcher ℕ
idle = record {
  project_name = codes "Constellation";
  isl_capacity_kbps = 100_000;
  gnd_capacity_kbps = 100_000;
  ground_object_capacity_kbps = 100_000;
  channel = false;
  client = false;
  request = none;
  project_id = none;
  outside = 0;
}

-- After the failed start, the two containers of the project were stopped.
start_containers_runs :
    ((start_containers (counting true) true idle).0.request ≡ some (codes "x7"))
    × ((start_containers (counting false) true idle).1 ≡ raise runtime_error)
    × ((start_containers (counting false) true idle).0.outside ≡ 2)
unfolding start_containers counting ask ◌>>=◌ parse_project_containers left_strip right_strip
start_containers_runs = (refl, refl, refl)

start_containers_lem_example :
    Post (λ _. IsStarted) IsClosed (start_containers (counting false) true idle)
start_containers_lem_example = start_containers_lem (counting false) true idle
