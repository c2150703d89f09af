-- ===== src/Lifecycle/Stopped.antt =====
-- What `stop_gonetem` comes to (services/mixins/network_lifecycle.py).
use satgonetem.Base.{
  ℕ, ◌≡◌, refl, sym, subst, ◌∙◌, Bool, false, Option, none, some, [], Text, Result, Dict, arith,
}
use satgonetem.Acts.{pure, writes, ◌>>◌}
use satgonetem.Acts.Keeps.{Keeps, >>=-Keeps, pure-Keeps}
use satgonetem.Acts.Ends.{
  Ends, IsOk, pure-Ends, writes-Ends, rescue-Ends, ensure-Ends, >>=-Ends, gets-Ends, when-Ends,
  each-Ends,
}
use satgonetem.Hil.{Hil, Machine}
use satgonetem.Hil
use satgonetem.Hil.Emptied.{Emptied, teardown_all-Emptied}
use satgonetem.Lifecycle.{
  Ask, close_project, flow_is_active, stop_flow, join_flow, join_thread, Outside, TopologyManager,
  with_outside, through_hil, hil_done, on_hil, halted, closed, ask,
}
use satgonetem.Lifecycle.Loop.{stop}
use satgonetem.Lifecycle.Emulation.{end_flow, shut_down, stop_gonetem}
use satgonetem.Lifecycle.Ordered.{BooksOf}

-- The requests of `stop_gonetem` whose exceptions it does not catch do not raise. To stop a flow may.
pub record Answers {K : Type 0} (answers : Outside K) : Type 0 where
  pub closes : (k : K) → IsOk (answers close_project k).1
  pub joins : (k : K) → IsOk (answers join_thread k).1
  pub tells : (f : ℕ) (k : K) → IsOk (answers (flow_is_active f) k).1
  pub joins_flow : (f : ℕ) (k : K) → IsOk (answers (join_flow f) k).1

abbrev pub NoHardware : {M : Type 0} → Option (Hil M) → Type 0
NoHardware none = Unit
NoHardware (some h) = Emptied h

-- Nothing runs, and no hardware is bridged.
pub record IsStopped {K M : Type 0} (m : TopologyManager K M) : Type 0 where
  pub status_off : m.status ≡ false
  pub gonetem_off : m.gonetem_is_on ≡ false
  pub routing_off : m.routing_initiated ≡ false
  pub running_off : m.running ≡ false
  pub loop_off : m.loop_alive ≡ false
  pub flows_off : m.active_flows ≡ []
  pub hardware_off : NoHardware m.hil_manager

module _ {K M : Type 0} (answers : Outside K) (calm : Answers answers) (host : Machine M)
    (hardware : Dict Text Text) where
  asked :
      (Q : TopologyManager K M → Type 0) (m : TopologyManager K M) (r : K × Result Bool)
      → ((k : K) → Q (record m { outside = k }))
      → Q (with_outside m r).0
  asked Q m (k, r) q = q k

  asked-IsOk :
      (m : TopologyManager K M) (r : K × Result Bool) → IsOk r.1 → IsOk (with_outside m r).1
  asked-IsOk m (k, r) d = d

  -- A request changes nothing but the outside.
  ask-Ends :
      (P Q : TopologyManager K M → Type 0) (q : Ask)
      → ((k : K) → IsOk (answers q k).1)
      → ((m : TopologyManager K M) (k : K) → P m → Q (record m { outside = k }))
      → Ends P (ask answers q) Q
  unfolding ask
  ask-Ends P Q q c inner = record {
    ends = λ m h. (
      asked-IsOk m (answers q m.outside) (c m.outside),
      asked Q m (answers q m.outside) (λ k. inner m k h),
    );
  }

  ask-Inner :
      (P : TopologyManager K M → Type 0) (q : Ask)
      → ((m : TopologyManager K M) (k : K) → P m → P (record m { outside = k }))
      → Keeps P (ask answers q)
  unfolding ask
  ask-Inner P q inner = record { holds = λ m h. asked P m (answers q m.outside) (λ k. inner m k h) }

  -- The loop does not run.
  abbrev Halted : TopologyManager K M → Type 0
  Halted m = BooksOf hardware m.hil_manager × (m.running ≡ false) × (m.loop_alive ≡ false)

  abbrev Asked : TopologyManager K M → Type 0
  Asked m = BooksOf hardware m.hil_manager × (m.running ≡ false)

  abbrev WithBooks : TopologyManager K M → Type 0
  WithBooks m = BooksOf hardware m.hil_manager

  stop-Ends : Ends WithBooks (stop answers) Halted
  unfolding stop
  stop-Ends =
      >>=-Ends WithBooks Asked Halted (writes halted tt) _
        (writes-Ends WithBooks Asked halted tt (λ m h. (h, refl)))
        (λ _. gets-Ends Asked Halted _ _ (λ alive.
          when-Ends _ Halted alive _
            (>>=-Ends _ Asked Halted _ _ (ask-Ends _ Asked join_thread calm.joins (λ m k h. h.0))
              (λ _. writes-Ends Asked Halted _ tt (λ m h. (h.0, h.1, refl))))
            (λ e m h. (h.0.0, h.0.1, h.1 ∙ e))))

  end_flow-Ends : (f : ℕ) → Ends Halted (end_flow answers host f) Halted
  end_flow-Ends f =
      >>=-Ends Halted Halted Halted _ _
        (ask-Ends Halted Halted (flow_is_active f) (calm.tells f) (λ m k h. h))
        (λ active.
          when-Ends Halted Halted active _
            (>>=-Ends Halted Halted Halted _ _
              (rescue-Ends Halted (ask answers (stop_flow f) >> pure tt) tt
                (>>=-Keeps _ _ (ask-Inner Halted (stop_flow f) (λ m k h. h)) (λ _. pure-Keeps tt)))
              (λ _.
                >>=-Ends Halted Halted Halted _ _
                  (ask-Ends Halted Halted (join_flow f) (calm.joins_flow f) (λ m k h. h))
                  (λ _. pure-Ends Halted Halted tt (λ m h. h))))
            (λ _ m h. h))

  -- The flows are gone too.
  abbrev Flowless : TopologyManager K M → Type 0
  Flowless m = Halted m × (m.active_flows ≡ [])

  abbrev Inactive : TopologyManager K M → Type 0
  Inactive m = Flowless m × (m.status ≡ false)

  abbrev Bare : TopologyManager K M → Type 0
  Bare m =
      NoHardware m.hil_manager
      × (m.running ≡ false)
      × (m.loop_alive ≡ false)
      × (m.active_flows ≡ [])
      × (m.status ≡ false)

  bared :
      (m : TopologyManager K M) (r : Hil M × Result (Unit {0}))
      → Inactive m
      → IsOk r.1
      → Emptied r.0
      → IsOk (hil_done m r).1 × Bare (hil_done m r).0
  bared m (hil, r) h d e = (d, (e, h.0.0.1, h.0.0.2, h.0.1, h.1))

  through_hil-Bare :
      (m : TopologyManager K M) (o : Option (Hil M))
      → m.hil_manager ≡ o
      → Inactive m
      → BooksOf hardware o
      → IsOk (through_hil m o (Hil.teardown_all host)).1
        × Bare (through_hil m o (Hil.teardown_all host)).0
  through_hil-Bare m none e h b =
      ((tt, refl), (subst NoHardware (sym e) tt, h.0.0.1, h.0.0.2, h.0.1, h.1))
  through_hil-Bare m (some hil) e h b =
      let (done, empty) = teardown_all-Emptied host hardware hil b in
      bared m (Hil.teardown_all host hil) h done empty

  on_hil-Ends : Ends Inactive (on_hil (Hil.teardown_all host)) Bare
  unfolding on_hil
  on_hil-Ends = record { ends = λ m h. through_hil-Bare m m.hil_manager refl h h.0.0.0 }

  shut_down-Ends : Ends Flowless (shut_down answers host) IsStopped
  unfolding shut_down
  shut_down-Ends =
      >>=-Ends Flowless Inactive IsStopped _ _
        (writes-Ends Flowless Inactive _ tt (λ m h. (h, refl)))
        (λ _. >>=-Ends Inactive Bare IsStopped _ _ on_hil-Ends (λ _.
          gets-Ends Bare IsStopped _ _ (λ there.
            >>=-Ends _ Bare IsStopped _ _
              (when-Ends _ Bare there _
                (>>=-Ends _ Bare Bare _ _ (ask-Ends _ Bare close_project calm.closes (λ m k h. h.0))
                  (λ _. pure-Ends Bare Bare tt (λ m h. h)))
                (λ _ m h. h.0))
              (λ _. writes-Ends Bare IsStopped closed tt (λ m h. record {
                status_off = h.4;
                gonetem_off = refl;
                routing_off = refl;
                running_off = h.1;
                loop_off = h.2;
                flows_off = h.3;
                hardware_off = h.0;
              })))))

  -- The books of the hardware manager, if there is one, are in order; and closing the project,
  -- joining the loop and asking for and joining a traffic flow do not raise. Then `stop_gonetem`
  -- returns, even if flows fail to stop, and afterwards the topology is not active, the emulation
  -- is off, routing is not initiated, the loop neither runs nor is alive, no flow is tracked, and
  -- no bridge or veth is recorded.
  pub stop_gonetem_lem :
      (m : TopologyManager K M)
      → BooksOf hardware m.hil_manager
      → IsOk (stop_gonetem answers host m).1 × IsStopped (stop_gonetem answers host m).0
  unfolding stop_gonetem
  stop_gonetem_lem m b = stop_gonetem-Ends.ends m b
    where
      stop_gonetem-Ends : Ends WithBooks (stop_gonetem answers host) IsStopped
      stop_gonetem-Ends = gets-Ends WithBooks IsStopped _ _ (λ busy.
          >>=-Ends _ Halted IsStopped _ _
            (when-Ends _ Halted busy (stop answers) (record { ends = λ s h. stop-Ends.ends s h.0 })
              (λ e s h. ground (arith, h.1 ∙ e)))
            (λ _. gets-Ends Halted IsStopped _ _ (λ flows.
              >>=-Ends _ Flowless IsStopped _ _
                (ensure-Ends _ Halted Flowless _ _
                  (record {
                    ends = λ s h.
                        (each-Ends Halted (end_flow answers host) flows end_flow-Ends).ends s h.0;
                  })
                  (writes-Ends Halted Flowless _ tt (λ s h. (h, refl))))
                (λ _. shut_down-Ends))))
