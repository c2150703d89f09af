-- ===== src/SegmentRouting/Daemon/Reached.antt =====
-- The manager that `SRMPLSDaemon` holds after each of its operations.
use satgonetem.Base.{
  ℕ, ◌≡◌, refl, sym, ◌∙◌, subst, inl, inr, Bool, true, false, Option, none, some, List, [], ◌∷◌,
  ◌++◌, Text, Dict, Result, ok, raise, Option-cases, Result-cases, arith, nat_eq,
}
use satgonetem.Emulator.{Node}
use satgonetem.SegmentRouting.Manager.{
  Manager, new_manager, allocate_node_sid, set_custom_path, clear_custom_path, clear_cache,
}
use satgonetem.SegmentRouting.Manager.Labels.{
  allocate, set_path, clear_path, clear, Reachable, start, next,
}
use satgonetem.SegmentRouting.Topology.{Topology}
use satgonetem.SegmentRouting.Daemon.{
  Daemon, Outcome, configure_mpls, allocate_all, init_sr_mpls, sr_base, install_satellite_part,
  install_gs_part, apply_sr_mpls_routes,
}
use satgonetem.SegmentRouting.Daemon.Lifecycle.{rebuild_sr_mpls_routing, init, build_routes}
use satgonetem.SegmentRouting.Daemon.CustomPaths.{
  send_commands, send_entries, update_sr_route_for_source, update_if, check_path, store_path,
  set_sr_custom_path, clear_sr_custom_path, then_reply, PathReply,
}

-- The manager, where there is one, is one that the operations of the manager lead to.
abbrev pub IsReached : Option Manager → Type 0
IsReached o = (m : Manager) → o ≡ some m → Reachable m

then_reply-manager :
    (o : Outcome (Unit {0})) (r : Result PathReply)
    → (then_reply o r).1.label_manager ≡ o.1.label_manager
then_reply-manager (raise x, d) r = refl
then_reply-manager (ok _, d) r = refl

some_inj : {m n : Manager} → some m ≡ some n → m ≡ n
some_inj h = cc

allocate_all-Reachable :
    (m : Manager) (nodes : Dict ℕ Node) → Reachable m → Reachable (allocate_all m nodes).1
unfolding allocate_all
allocate_all-Reachable m [] r = r
allocate_all-Reachable m ((id, n) ∷ nodes) r = elim (Result-cases (allocate_node_sid m id n.name)) [
  | inr (x, failed) ↦ rw (allocate_all, failed) r
  | inl ((sid, m'), made) ↦
      rw (allocate_all, made)
        (allocate_all-Reachable m' nodes (next r (allocate id n.name sid made)))
]

module _ (executes : ℕ → List Text → Bool) (t : Topology) where
  apply_sr_mpls_routes-manager :
      (b : Bool) (m : Manager) (d : Daemon)
      → (apply_sr_mpls_routes executes t b m d).1.label_manager ≡ d.label_manager
  unfolding apply_sr_mpls_routes install_gs_part install_satellite_part
  apply_sr_mpls_routes-manager b m d = ground arith

  update_sr_route_for_source-manager :
      (m : Manager) (id : ℕ) (d : Daemon)
      → (update_sr_route_for_source executes t m id d).1.label_manager ≡ d.label_manager
  unfolding update_sr_route_for_source send_entries send_commands
  update_sr_route_for_source-manager m id d = ground arith

  IsReached-some : {o : Option Manager} (m : Manager) → Reachable m → o ≡ some m → IsReached o
  IsReached-some m r h m' h' = subst Reachable (some_inj (sym h ∙ h')) r

  IsReached-same : {o o' : Option Manager} → o' ≡ o → IsReached o → IsReached o'
  IsReached-same same reached m h = reached m (sym same ∙ h)

  pub rebuild-IsReached :
      (b : Bool) (d : Daemon)
      → IsReached d.label_manager
      → IsReached (rebuild_sr_mpls_routing executes t b d).1.label_manager
  unfolding rebuild_sr_mpls_routing build_routes
  rebuild-IsReached b d reached = elim (Option-cases d.label_manager) [
    | inl gone ↦ IsReached-same {o = none} (ground arith) (λ m h. cc)
    | inr (m, held) ↦
        IsReached-some (clear_cache m) (next (reached m held) clear)
          (ground (arith, manager_kept (clear_cache m)))
  ]
    where
      manager_kept :
          (m : Manager) (e : Daemon)
          → (apply_sr_mpls_routes executes t b m e).1.label_manager ≡ e.label_manager
      manager_kept m e = apply_sr_mpls_routes-manager b m e

  init_sr_mpls-IsReached : (d : Daemon) → IsReached (init_sr_mpls t d).1.label_manager
  unfolding init_sr_mpls
  init_sr_mpls-IsReached d =
      IsReached-some _
        (allocate_all-Reachable (new_manager (sr_base d) 100000) (t.satellites ++ t.ground_stations)
          (start (sr_base d) 100000))
        refl

  pub init-IsReached : (d : Daemon) → IsReached (init executes t d).1.label_manager
  unfolding init
  init-IsReached d = elim (Result-cases (init_sr_mpls t (configure_mpls d)).0) [
    | inr (x, failed) ↦ IsReached-same {o = labelled.label_manager} (ground arith) labelled_ok
    | inl (_, made) ↦
        IsReached-same {o = (rebuild_sr_mpls_routing executes t true labelled).1.label_manager}
          (elim (Result-cases (rebuild_sr_mpls_routing executes t true labelled).0) [
            | inl (_, good) ↦ ground arith
            | inr (x, bad) ↦ ground arith
          ])
          (rebuild-IsReached true labelled labelled_ok)
  ]
    where
      labelled : Daemon
      labelled = (init_sr_mpls t (configure_mpls d)).1

      labelled_ok : IsReached labelled.label_manager
      labelled_ok = init_sr_mpls-IsReached (configure_mpls d)

  update_if-manager :
      (b : Bool) (m : Manager) (id : ℕ) (d : Daemon)
      → (update_if executes t b m id d).1.label_manager ≡ d.label_manager
  unfolding update_if
  update_if-manager false m id d = refl
  update_if-manager true m id d = ground (arith, update_sr_route_for_source-manager m id d)

  store_path-manager :
      (m m' : Manager) (s e : ℕ) (path : List ℕ) (d : Daemon)
      → set_custom_path m s e path ≡ ok m'
      → (store_path executes t m s e path d).1.label_manager ≡ some m'
  unfolding store_path
  store_path-manager m m' s e path d stored =
      rw (store_path, stored)
        (then_reply-manager (update_if executes t true m' s (record d { label_manager = some m' }))
            _
          ∙ update_if-manager true m' s (record d { label_manager = some m' }))

  pub set_sr_custom_path-IsReached :
      (s e : ℕ) (path : List ℕ) (d : Daemon)
      → IsReached d.label_manager
      → IsReached (set_sr_custom_path executes t s e path d).1.label_manager
  unfolding set_sr_custom_path
  set_sr_custom_path-IsReached s e path d reached = elim (Option-cases d.label_manager) [
    | inl gone ↦ IsReached-same {o = none} (ground arith) (λ m h. cc)
    | inr (m, held) ↦ elim (Result-cases (check_path t s e path)) [
      | inr (x, failed) ↦ IsReached-same {o = d.label_manager} (ground arith) reached
      | inl (_, passed) ↦ elim (Result-cases (set_custom_path m s e path)) [
        | inr (x, failed) ↦ IsReached-same {o = d.label_manager} (ground arith) reached
        | inl (m', stored) ↦
            IsReached-some m' (next (reached m held) (set_path s e path stored))
              (ground (arith, store_path-manager m m' s e path d stored))
      ]
    ]
  ]

  pub clear_sr_custom_path-IsReached :
      (s e : ℕ) (d : Daemon)
      → IsReached d.label_manager
      → IsReached (clear_sr_custom_path executes t s e d).1.label_manager
  unfolding clear_sr_custom_path
  clear_sr_custom_path-IsReached s e d reached = elim (Option-cases d.label_manager) [
    | inl gone ↦ IsReached-same {o = none} (ground arith) (λ m h. cc)
    | inr (m, held) ↦
        IsReached-some (clear_custom_path m s e).1 (next (reached m held) (clear_path s e)) (
          ground (
            arith,
            update_if-manager (clear_custom_path m s e).0 (clear_custom_path m s e).1 s
                (record d { label_manager = some (clear_custom_path m s e).1 }),
          ))
  ]
