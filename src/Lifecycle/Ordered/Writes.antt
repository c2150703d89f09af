-- ===== src/Lifecycle/Ordered/Writes.antt =====
-- The assignments of the life cycle (services/mixins/network_lifecycle.py, routing_mgr.py and
-- simulation_loop.py), and the order of the flags.
use satgonetem.Base.{
  ℕ, ◌≡◌, refl, Bool, true, false, Option, none, some, List, [], ◌∷◌, Text, ℤ, Dict, text_eq,
  list_eq, nat_eq,
}
use satgonetem.Lifecycle.{
  TopologyManager, launched, halted, loop_ended, closed, with_method, at_time,
}
use satgonetem.Lifecycle.Ordered.{Ordered, Within, Inactive, HasDaemon, Plain}

module _ {K M : Type 0} (hardware : Dict Text Text) where
  pub Ordered-Plain : (m : TopologyManager K M) → Ordered hardware m → Plain hardware m
  Ordered-Plain m h = record { ordered = h; extra = tt }

  pub Within-Plain :
      (E : Bool → Option Text → Type 0) (m : TopologyManager K M)
      → Within E hardware m
      → Plain hardware m
  Within-Plain E m h = Ordered-Plain m h.ordered

  pub launched-Plain : (m : TopologyManager K M) → Plain hardware m → Plain hardware (launched m)
  launched-Plain m h = Ordered-Plain (launched m) (record {
    active = λ _. refl;
    launched_if_on = λ _. refl;
    routed = h.ordered.routed;
    unasked = h.ordered.unasked;
    books = h.ordered.books;
  })

  pub Plain-Inactive :
      (m : TopologyManager K M)
      → Plain hardware m
      → Within Inactive hardware (record m { status = false })
  Plain-Inactive m h = record {
    ordered = record {
      active = λ e. cc;
      launched_if_on = h.ordered.launched_if_on;
      routed = h.ordered.routed;
      unasked = h.ordered.unasked;
      books = h.ordered.books;
    };
    extra = refl;
  }

  pub closed-Inactive :
      (m : TopologyManager K M) → Within Inactive hardware m → Within Inactive hardware (closed m)
  closed-Inactive m h = record {
    ordered = record {
      active = λ e. let off : m.status ≡ false = h.extra in cc;
      launched_if_on = λ e. cc;
      routed = λ e. cc;
      unasked = h.ordered.unasked;
      books = h.ordered.books;
    };
    extra = h.extra;
  }

  -- An assignment to fields of which only those of the loop are of interest.
  loop_fields :
      (m : TopologyManager K M) (running stop_evt : Bool) (flows : List ℕ) (alive : Bool)
      → (running ≡ true → stop_evt ≡ false)
      → Plain hardware m
      → Plain hardware (record m {
        running = running;
        stop_evt = stop_evt;
        loop_alive = alive;
        active_flows = flows;
      })
  loop_fields m running stop_evt flows alive e h = Ordered-Plain _ (record {
    active = h.ordered.active;
    launched_if_on = h.ordered.launched_if_on;
    routed = h.ordered.routed;
    unasked = e;
    books = h.ordered.books;
  })

  pub halted-Plain : (m : TopologyManager K M) → Plain hardware m → Plain hardware (halted m)
  halted-Plain m h = loop_fields m false true m.active_flows m.loop_alive (λ e. cc) h

  pub started-Plain :
      (m : TopologyManager K M)
      → Plain hardware m
      → Plain hardware (record m { stop_evt = false; running = true })
  started-Plain m h = loop_fields m true false m.active_flows m.loop_alive (λ e. refl) h

  pub alive-Plain :
      (alive : Bool) (m : TopologyManager K M)
      → Plain hardware m
      → Plain hardware (record m { loop_alive = alive })
  alive-Plain alive m h =
      loop_fields m m.running m.stop_evt m.active_flows alive h.ordered.unasked h

  pub flowless-Plain :
      (m : TopologyManager K M) → Plain hardware m → Plain hardware (record m { active_flows = [] })
  flowless-Plain m h = loop_fields m m.running m.stop_evt [] m.loop_alive h.ordered.unasked h

  pub loop_ended-Plain :
      (m : TopologyManager K M) → Plain hardware m → Plain hardware (loop_ended m)
  loop_ended-Plain m h = loop_fields m false m.stop_evt m.active_flows false (λ e. cc) h

  pub with_method-Plain :
      (method : Text) (m : TopologyManager K M)
      → Plain hardware m
      → Plain hardware (with_method method m)
  with_method-Plain [] m h = h
  with_method-Plain (c ∷ s) m h = Ordered-Plain _ (record {
    active = h.ordered.active;
    launched_if_on = h.ordered.launched_if_on;
    routed = h.ordered.routed;
    unasked = h.ordered.unasked;
    books = h.ordered.books;
  })

  pub daemon-HasDaemon :
      (d : Text) (m : TopologyManager K M)
      → Plain hardware m
      → Within HasDaemon hardware (record m { routing_daemon = some d })
  daemon-HasDaemon d m h = record {
    ordered = record {
      active = h.ordered.active;
      launched_if_on = h.ordered.launched_if_on;
      routed = λ _. refl;
      unasked = h.ordered.unasked;
      books = h.ordered.books;
    };
    extra = refl;
  }

  pub initiated-HasDaemon :
      (m : TopologyManager K M)
      → Within HasDaemon hardware m
      → Within HasDaemon hardware (record m { routing_initiated = true })
  initiated-HasDaemon m h = record {
    ordered = record {
      active = h.ordered.active;
      launched_if_on = h.ordered.launched_if_on;
      routed = λ _. h.extra;
      unasked = h.ordered.unasked;
      books = h.ordered.books;
    };
    extra = h.extra;
  }

  pub undaemoned-Plain :
      (m : TopologyManager K M)
      → Plain hardware m
      → Plain hardware (record m { routing_initiated = false; routing_daemon = none })
  undaemoned-Plain m h = Ordered-Plain _ (record {
    active = h.ordered.active;
    launched_if_on = h.ordered.launched_if_on;
    routed = λ e. cc;
    unasked = h.ordered.unasked;
    books = h.ordered.books;
  })

  pub time-Plain :
      (m : TopologyManager K M) (update_time : ℕ) (step : ℤ)
      → Plain hardware m
      → Plain hardware (record m { update_time = update_time; current_time_step = step })
  time-Plain m update_time step h = Ordered-Plain _ (record {
    active = h.ordered.active;
    launched_if_on = h.ordered.launched_if_on;
    routed = h.ordered.routed;
    unasked = h.ordered.unasked;
    books = h.ordered.books;
  })

  pub at_time-Plain :
      (t : ℕ) (m : TopologyManager K M) → Plain hardware m → Plain hardware (at_time t m)
  at_time-Plain t m h = time-Plain m m.update_time _ h
