-- ===== src/Lifecycle/Ordered/Rules.antt =====
-- Requests to the outside and to the hardware manager (services/mixins/network_lifecycle.py), which
-- leave the flags as they are.
use satgonetem.Base.{Bool, Option, none, some, List, Text, Result, Dict, text_eq, list_eq, nat_eq}
use satgonetem.Acts.{Act}
use satgonetem.Acts.Keeps.{Keeps}
use satgonetem.Hil.{Hil, HilLink, Machine, wires, tears_all_down, perform}
use satgonetem.Hil
use satgonetem.Hil.Books.{Books, perform-Keeps}
use satgonetem.Lifecycle.{Ask, Outside, TopologyManager, with_outside, through_hil, on_hil, ask}
use satgonetem.Lifecycle.Ordered.{BooksOf, Within}

module _ {K M : Type 0} (answers : Outside K) (hardware : Dict Text Text)
    (E : Bool → Option Text → Type 0) where
  same_flags :
      (m : TopologyManager K M) (r : K × Result Bool)
      → Within E hardware m
      → Within E hardware (with_outside m r).0
  same_flags m (k, r) h = record {
    ordered = record {
      active = h.ordered.active;
      launched_if_on = h.ordered.launched_if_on;
      routed = h.ordered.routed;
      unasked = h.ordered.unasked;
      books = h.ordered.books;
    };
    extra = h.extra;
  }

  pub ask-Keeps :
      (q : Ask) → Keeps (λ (m : TopologyManager K M). Within E hardware m) (ask {M = M} answers q)
  unfolding ask
  ask-Keeps q = record { holds = λ m h. same_flags m (answers q m.outside) h }

module _ {K M : Type 0} (host : Machine M) (hardware : Dict Text Text)
    (E : Bool → Option Text → Type 0) where
  on_hil-Keeps :
      (act : Act (Hil M) (Unit {0}))
      → Keeps (Books hardware) act
      → Keeps (λ (m : TopologyManager K M). Within E hardware m) (on_hil act)
  unfolding on_hil
  on_hil-Keeps act k = record { holds = λ m h. kept m m.hil_manager h h.ordered.books }
    where
      kept :
          (m : TopologyManager K M) (o : Option (Hil M))
          → Within E hardware m
          → BooksOf hardware o
          → Within E hardware (through_hil m o act).0
      kept m none h b = h
      kept m (some hil) h b = record {
        ordered = record {
          active = h.ordered.active;
          launched_if_on = h.ordered.launched_if_on;
          routed = h.ordered.routed;
          unasked = h.ordered.unasked;
          books = k.holds hil b;
        };
        extra = h.extra;
      }

  pub wire-Keeps :
      (ls : List HilLink)
      → Keeps
          (λ (m : TopologyManager K M). Within E hardware m)
          (on_hil {K = K} (Hil.wire_links host ls))
  unfolding perform
  wire-Keeps ls = on_hil-Keeps (Hil.wire_links host ls) (perform-Keeps host hardware (wires ls))

  pub teardown-Keeps :
      Keeps
        (λ (m : TopologyManager K M). Within E hardware m)
        (on_hil {K = K} (Hil.teardown_all host))
  unfolding perform
  teardown-Keeps = on_hil-Keeps (Hil.teardown_all host) (perform-Keeps host hardware tears_all_down)
