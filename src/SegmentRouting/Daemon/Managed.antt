-- ===== src/SegmentRouting/Daemon/Managed.antt =====
-- The manager that `SRMPLSDaemon` holds, through all of its operations.
use satgonetem.Base.{
  ℕ, ◌≤◌, ◌≡◌, inl, inr, Bool, false, Option, some, List, Text, Option-cases, arith, nat_eq,
}
use satgonetem.Emulator.{Node}
use satgonetem.SegmentRouting.Manager.{mpls_label_min, mpls_label_max}
use satgonetem.SegmentRouting.Manager.Labels.{get_node_sid-range, get_node_sid-get_node_for_sid}
use satgonetem.SegmentRouting.Topology.{Topology}
use satgonetem.SegmentRouting.Daemon.{Daemon, daemon_node_sid, new_daemon}
use satgonetem.SegmentRouting.Daemon.Lifecycle.{rebuild_sr_mpls_routing, init, remove}
use satgonetem.SegmentRouting.Daemon.CustomPaths.{set_sr_custom_path, clear_sr_custom_path}
use satgonetem.SegmentRouting.Daemon.Reached.{
  IsReached, rebuild-IsReached, init-IsReached, set_sr_custom_path-IsReached,
  clear_sr_custom_path-IsReached,
}

-- One call of an operation of the daemon, whatever the topology is at that time, and whatever the
-- containers answer.
pub data Operation : Daemon → Daemon → Type 0 where
  initialise :
      (executes : ℕ → List Text → Bool) (t : Topology) {d : Daemon}
      → Operation d (init executes t d).1
  rebuild :
      (executes : ℕ → List Text → Bool) (t : Topology) {d : Daemon}
      → Operation d (rebuild_sr_mpls_routing executes t false d).1
  set_custom :
      (executes : ℕ → List Text → Bool) (t : Topology) (s e : ℕ) (path : List ℕ) {d : Daemon}
      → Operation d (set_sr_custom_path executes t s e path d).1
  clear_custom :
      (executes : ℕ → List Text → Bool) (t : Topology) (s e : ℕ) {d : Daemon}
      → Operation d (clear_sr_custom_path executes t s e d).1
  removal : (t : Topology) (node : Option Node) {d : Daemon} → Operation d (remove t node d)

pub data Operated : Daemon → Type 0 where
  created : Operated new_daemon
  operated : {d d' : Daemon} → Operated d → Operation d d' → Operated d'

Operation-IsReached :
    {d d' : Daemon} → Operation d d' → IsReached d.label_manager → IsReached d'.label_manager
unfolding remove
Operation-IsReached {d} (initialise executes t) reached = init-IsReached executes t d
Operation-IsReached {d} (rebuild executes t) reached = rebuild-IsReached executes t false d reached
Operation-IsReached {d} (set_custom executes t s e path) reached =
    set_sr_custom_path-IsReached executes t s e path d reached
Operation-IsReached {d} (clear_custom executes t s e) reached =
    clear_sr_custom_path-IsReached executes t s e d reached
Operation-IsReached (removal t _) reached = λ m h. cc

Operated-IsReached : (d : Daemon) → Operated d → IsReached d.label_manager
Operated-IsReached _ created = λ m h. cc
Operated-IsReached _ (operated {d} before step) =
    Operation-IsReached step (Operated-IsReached d before)

-- Whatever operations the daemon went through since it was created (`init`, `update`, setting and
-- clearing custom paths, `remove`, with any topology, outcome and exception), two nodes with the
-- same label are the same node, and the label is in the range from 16 to 1048575.
pub daemon_node_sid-inverse :
    (d : Daemon) (i j l : ℕ)
    → Operated d
    → daemon_node_sid d i ≡ some l
    → daemon_node_sid d j ≡ some l
    → (i ≡ j) × (mpls_label_min ≤ l) × (l ≤ mpls_label_max)
unfolding daemon_node_sid
daemon_node_sid-inverse d i j l before a b = elim (Option-cases d.label_manager) [
  | inl gone ↦ ground arith
  | inr (m, held) ↦
      let reach = Operated-IsReached d before m held in
      let (shape, low, high) = get_node_sid-range m i l reach (ground arith) in
      let from_i = (get_node_sid-get_node_for_sid m i l reach).0 (ground arith) in
      let from_j = (get_node_sid-get_node_for_sid m j l reach).0 (ground arith) in
      (ground arith, low, high)
]
