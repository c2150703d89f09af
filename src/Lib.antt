-- ===== src/Lib.antt =====
-- satgonetem, an emulator of satellite networks: each node of the network is a container. As the
-- satellites move, the topology manager brings links and interfaces into agreement with the
-- simulation, and a routing daemon computes routes for all nodes and installs them in the containers.
--
-- Parts of the program, and the files that model them:
-- * Static, satgonetem/routing/static_daemon.py. `Static.Populate` takes the shortest paths toward
--   each destination and transposes them to a vector of next hops for each source
--   (`_populate_dijkstra_igraph`). `Static.Install` makes the routes of one source from its vector,
--   with the caches of the daemon (`_install_source_routes`). `Static.Ifaces` finds interfaces by
--   the number in their names (`_peer_iface_map`). `Static.Daemon` runs the build for all nodes and
--   computes the batches, and `Static.Daemon.Lifecycle` has `init`, `update` and `remove`.
--   `Static.Diff` computes the commands that lead from the previous table of a node to its current
--   one (`_emit_batch_commands`).
-- * SegmentRouting, satgonetem/routing/srmpls_daemon.py and satgonetem/models/mpls_entry.py.
--   `SegmentRouting.Manager` gives labels to nodes and label stacks to paths
--   (`SegmentRoutingManager`). `SegmentRouting.Entries` has the entries and the commands that they
--   print. `SegmentRouting.Topology` has what the daemon reads of the topology manager, with
--   `_get_interface_to_peer` of satgonetem/services/mixins/interface_mgr.py. `SegmentRouting.Routes`
--   builds the routes with label stacks (`_build_sr_gs_routes`), `SegmentRouting.Install` installs
--   what changed on each node, `SegmentRouting.Daemon` and its children have the life cycle and the
--   custom paths (`SRMPLSDaemon`).
-- * Address, satgonetem/utils/ip_utils.py: allocation of the two addresses of a link, validation,
--   binary digits and summaries (`IPUtils`). `Address.Assignment` has `set_ipv4_address` of
--   satgonetem/models/interface.py.
-- * Links, satgonetem/models/link.py and the mixins of the topology manager in
--   satgonetem/services/mixins. `Links` has a link and its key (`Link`, `_build_link_key`),
--   `Links.Sync` the pass over the links of the simulation (`_sync_links` of topology_sync.py),
--   `Links.Operations` the batches and the clean-up (link_ops.py), and `Links.Update` the interfaces
--   of a link (`_build_interfaces_from_link` of interface_mgr.py) and the whole step
--   (`update_simulation`), which deletes before it adds and updates.
-- * Flows, satgonetem/traffic/flow_scheduler.py: the scheduler of traffic flows (`FlowScheduler`) as
--   a state machine, whose thread, workers and flows take steps in any order.
-- * Hil, satgonetem/launchers/hil_manager.py: the bridges and veths that lead the links of a ground
--   station to hardware (`HilManager`). `Hil.Books` is about its dictionaries.
-- * Lifecycle, in satgonetem/services/mixins: start and end of the emulation
--   (network_lifecycle.py, `Lifecycle.Emulation`), the choice of a routing daemon (routing_mgr.py,
--   `Lifecycle.Routing`), the loop and its thread (simulation_loop.py, `Lifecycle.Loop`); the calls
--   on them, in any order, are `Lifecycle.Calls`.
-- * Launch, satgonetem/launchers/gonetem_launcher.py (`GonetemLauncher`): `Launch` has the transport,
--   `Launch.Projects` the project on the server, `Launch.Links` the requests for links,
--   `Launch.Containers` the containers in Docker.
-- * Controller, satgonetem/services/mixins/controller.py: addresses on the plane of the controller and
--   the link of the host to its switch.
-- * Acts has functions on a state that raise an exception or return, both with the state they leave,
--   and the rules for what they keep, how they end and where they lead.
-- * Emulator has the data that the daemons read: interfaces, routing entries and nodes, of
--   satgonetem/models/interface.py, satgonetem/models/routing_entry.py and satgonetem/models/node.py.
-- * Base has what is not of the program: Python's dictionaries, exceptions, texts and integers.
-- * Tests has concrete inputs.
--
-- Objects that the code reaches by reference are numbered, and a heap gives the interface behind a
-- number. A method that raises is a result with the exception; where it has changed something
-- before, the changed state comes beside the result. Batches that are handed to containers are
-- values, in their order; the threads of a daemon run node after node, since each of them touches
-- the tables and rows of its own node, and the threads of a batch of link operations in any order.
-- Logging is left out.
--
-- Fuel: `decimal` divides by ten, and `padded` halves, at most n + 1 times, which is enough for the
-- digits of n. All else is structural recursion.
--
-- A float is a number that stands for its bit pattern; what is computed on floats (distances, delays,
-- link budgets) is a parameter (`Physics`). A link is named by its key in the dictionary of links.
--
-- Not in the repository, and so parameters: the graph libraries (`ShortestPaths`, `Paths`), the
-- containers (a function that says whether a batch runs), the kernel's routing table
-- (`Static.Diff.Kernel`: what `replace` and `del` do to a prefix) and the tables of a node
-- (`Tables` of `SegmentRouting.Install.Incremental`), the launcher and the hardware manager
-- (`Surroundings`), the satcom library's links (`SatLink`), the machine with its bridges and
-- namespaces (`Hil.Machine`), what the launcher, the daemons, the threads and the simulation answer to
-- the life cycle (`Lifecycle.Outside`), the server of GoNetEm with Docker and the callback
-- (`Launch.Server`), and the commands on the host (`Controller.Shell`). `Static.Daemon` takes the
-- address summary as a parameter, for which `Address` has the code.
--
-- Not modelled: routes from a file and the build over networkx in static_daemon.py; the other
-- daemons, which write configuration for external programs; the text of the project file and the
-- attaching of containers in the launcher; the speed factor of the loop, a rounded float, and
-- waiting; paths between nodes over networkx; the construction of nodes and positions, link budgets,
-- traffic tools other than the flow scheduler.
pub mod Acts
pub mod Address
pub mod Base
pub mod Controller
pub mod Emulator
pub mod Flows
pub mod Hil
pub mod Launch
pub mod Lifecycle
pub mod Links
pub mod SegmentRouting
pub mod Static
pub mod Tests
