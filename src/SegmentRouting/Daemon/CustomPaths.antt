-- ===== src/SegmentRouting/Daemon/CustomPaths.antt =====
-- The custom paths of `SRMPLSDaemon` (routing/srmpls_daemon.py), and what it reports.
use satgonetem.Base.{
  ℕ, ◌+◌, ◌-◌, Bool, true, not, ◌&&◌, ◌||◌, Option, none, some, List, [], ◌∷◌, ◌++◌, Text, decimal,
  get, put, values, length, map_result, Result, ok, raise, ◌>>=◌, ◌>>◌, require, value_error,
  runtime_error, if◌then◌else◌, nat_eq, text_eq, leb,
}
use satgonetem.Emulator.{Node}
use satgonetem.SegmentRouting.Manager.{
  Manager, Pair, Statistics, get_statistics, get_node_sid, set_custom_path, clear_custom_path,
  get_label_stack_for_path, starts_with, ends_with, is_some,
}
use satgonetem.SegmentRouting.Entries.{LabelStackEntry, label_stack_command}
use satgonetem.SegmentRouting.Topology.{Paths, Topology, get_interface_to_peer}
use satgonetem.SegmentRouting.Routes.{Lfib, routes_from}
use satgonetem.SegmentRouting.Install.{own_line}
use satgonetem.SegmentRouting.Daemon.{Daemon, Outcome, use_php, enable_commands}

abbrev found : Result (List ℕ) → Option (List ℕ)
found (ok path) = some path
found (raise x) = none

-- `new_entries` of `_update_sr_route_for_source`
unfoldable pub new_entries : Topology → Manager → Bool → Paths → Node → List LabelStackEntry
unfolding routes_from get_interface_to_peer
new_entries t m php paths src =
    routes_from t.heap m php (get_interface_to_peer t.heap src.interfaces)
      (λ dst. found (paths.shortest_path src.id dst)) src.id (values t.ground_stations)

module _ (executes : ℕ → List Text → Bool) (t : Topology) where
  -- The batch at the end of `_update_sr_route_for_source`; a failure of it is logged.
  unfoldable pub send_commands : ℕ → Node → List Text → Daemon → Daemon
  send_commands source_id src [] d = d
  send_commands source_id src (line ∷ lines) d = record d {
    prev_sr_gs_routes =
        if executes src.id (line ∷ lines)
        then put source_id (line ∷ lines) d.prev_sr_gs_routes
        else d.prev_sr_gs_routes;
    sent = d.sent ++ (src.id, line ∷ lines) ∷ [];
  }

  -- From the assignment to `sr_lfib` on; `_enable_mpls` stands outside of every `try`.
  unfoldable pub send_entries :
      Manager → ℕ → Node → List LabelStackEntry → Daemon → Outcome (Unit {0})
  unfolding enable_commands send_commands
  send_entries m source_id src entries d =
      let written = record d { sr_lfib = put source_id entries d.sr_lfib } in
      elim (enable_commands t.heap src) [
        | raise x ↦ (raise x, written)
        | ok enabling ↦
            let enabled = record written { sent = d.sent ++ (src.id, enabling) ∷ [] } in
            if executes src.id enabling
            then elim (map_result (label_stack_command t.heap) entries) [
              | raise x ↦ (raise x, enabled)
              | ok lines ↦ (
                ok tt,
                send_commands source_id src (own_line (get_node_sid m src.id) src.name ++ lines)
                    enabled,
              )
            ]
            else (raise runtime_error, enabled)
      ]

  -- `_update_sr_route_for_source`, with a manager at hand
  unfoldable pub update_sr_route_for_source : Manager → ℕ → Daemon → Outcome (Unit {0})
  unfolding send_entries new_entries
  update_sr_route_for_source m source_id d = elim (get source_id t.ground_stations) [
    | none ↦ (ok tt, d)
    | some src ↦ if not src.container then (ok tt, d) else elim t.current [
      | raise x ↦ (raise x, d)
      | ok paths ↦ send_entries m source_id src (new_entries t m (use_php d) paths src) d
    ]
  ]

  unfoldable pub update_if : Bool → Manager → ℕ → Daemon → Outcome (Unit {0})
  unfolding update_sr_route_for_source
  update_if test m source_id d =
      if test && t.status then update_sr_route_for_source m source_id d else (ok tt, d)

module _ (t : Topology) where
  abbrev in_topology : ℕ → Bool
  in_topology id = is_some (get id t.satellites) || is_some (get id t.ground_stations)

  abbrev all_in_topology : List ℕ → Bool
  all_in_topology [] = true
  all_in_topology (id ∷ path) = in_topology id && all_in_topology path

  -- The checks of `set_sr_custom_path` before anything is stored.
  unfoldable pub check_path : ℕ → ℕ → List ℕ → Result (Unit {0})
  check_path source_id dest_id path = do
    require (leb 2 (length path)) value_error
    require (starts_with source_id path) value_error
    require (ends_with dest_id path) value_error
    require (all_in_topology path) value_error

-- The answer: `path`, `label_stack` and `hop_count`.
pub record PathReply : Type 0 where
  pub path : List ℕ
  pub label_stack : List ℕ
  pub hop_count : ℕ

abbrev pub reply : Bool → Manager → List ℕ → Result PathReply
reply php m path = do
  labels ← get_label_stack_for_path m path php
  ok (record { path = path; label_stack = labels; hop_count = length path - 1 })

-- the result of `k` where `m` succeeds, with the daemon that `m` leaves
abbrev pub then_reply : Outcome (Unit {0}) → Result PathReply → Outcome PathReply
then_reply (raise x, d) r = (raise x, d)
then_reply (ok _, d) r = (r, d)

module _ (executes : ℕ → List Text → Bool) (t : Topology) where
  unfoldable pub store_path : Manager → ℕ → ℕ → List ℕ → Daemon → Outcome PathReply
  unfolding update_sr_route_for_source get_label_stack_for_path set_custom_path
  store_path m source_id dest_id path d = elim (set_custom_path m source_id dest_id path) [
    | raise x ↦ (raise x, d)
    | ok m' ↦
        then_reply (update_if executes t true m' source_id (record d { label_manager = some m' }))
          (reply (use_php d) m' path)
  ]

  -- `set_sr_custom_path`
  unfoldable pub set_sr_custom_path : ℕ → ℕ → List ℕ → Daemon → Outcome PathReply
  unfolding check_path store_path
  set_sr_custom_path source_id dest_id path d = elim d.label_manager [
    | none ↦ (raise runtime_error, d)
    | some m ↦ elim (check_path t source_id dest_id path) [
      | raise x ↦ (raise x, d)
      | ok _ ↦ store_path m source_id dest_id path d
    ]
  ]

  -- `clear_sr_custom_path`; the answer is `reverted_to_shortest`.
  unfoldable pub clear_sr_custom_path : ℕ → ℕ → Daemon → Outcome Bool
  unfolding clear_custom_path update_sr_route_for_source
  clear_sr_custom_path source_id dest_id d = elim d.label_manager [
    | none ↦ (raise runtime_error, d)
    | some m ↦
        let (removed, m') = clear_custom_path m source_id dest_id in
        let (r, d') =
          update_if executes t removed m' source_id (record d { label_manager = some m' }) in
        (r >> ok removed, d')
  ]

-- `get_sr_statistics`: the manager's, `sr_routes` and `ground_stations_with_routes`; `none` where
-- routing is not enabled.
abbrev count_routes : Lfib → ℕ
count_routes [] = 0
count_routes ((id, entries) ∷ lfib) = length entries + count_routes lfib

abbrev pub get_sr_statistics : Daemon → Option (Statistics × ℕ × ℕ)
get_sr_statistics d = elim d.label_manager [
  | none ↦ none
  | some m ↦ some (get_statistics m, count_routes d.sr_lfib, length d.sr_lfib)
]

-- One item of `list_sr_custom_paths`.
pub record PathItem : Type 0 where
  pub source_id : ℕ
  pub source_name : Text
  pub destination_id : ℕ
  pub destination_name : Text
  pub path : List ℕ
  pub label_stack : List ℕ
  pub hop_count : ℕ

abbrev station_name : Topology → ℕ → Text
station_name t id = elim (get id t.ground_stations) [ none ↦ decimal id | some n ↦ n.name ]

abbrev path_item : Topology → Manager → Bool → Pair × List ℕ → Result PathItem
path_item t m php ((src_id, dst_id), path) = do
  labels ← get_label_stack_for_path m path php
  ok (record {
    source_id = src_id;
    source_name = station_name t src_id;
    destination_id = dst_id;
    destination_name = station_name t dst_id;
    path = path;
    label_stack = labels;
    hop_count = length path - 1;
  })

-- `list_sr_custom_paths`
abbrev pub list_sr_custom_paths : Topology → Daemon → Result (List PathItem)
list_sr_custom_paths t d = elim d.label_manager [
  | none ↦ ok []
  | some m ↦ map_result (path_item t m (use_php d)) m.custom_paths
]
