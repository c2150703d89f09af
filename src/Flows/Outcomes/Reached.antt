-- ===== src/Flows/Outcomes/Reached.antt =====
-- The outcomes when they are collected, and after any steps (traffic/flow_scheduler.py).
use satgonetem.Base.{
  ℕ, ◌+◌, ◌≡◌, refl, sym, ap, subst, ◌∙◌, Bool, true, false, Option, none, some, Bool-cases, inl,
  inr, List, [], ◌∷◌, ◌++◌, leb, put, nat_eq, Result, ok, raise, some-injective, arith,
}
use mathlib.Core.List.{append-nil}
use satgonetem.Flows.{
  running, done, Flow, Scheduler, sort_flows, insert_flow, pick, collect_one, Event, submit, begin,
  close, finish, report, fatal, report_picked, close_when, step_running, Reach, here, next,
}
use satgonetem.Flows.Steps.{if-cases, step-running}
use satgonetem.Flows.Outcomes.{
  Outcomes, flows_of, errors_in, results_in, one, count, census, Pairs, errors_in-append,
  results_in-append, map_in-append, submit-Pairs, begin-Pairs, finish-Pairs, picked_outcome,
  count-flows_of,
}

-- Where the outcomes are kept, and there is one more.
collect_one-Pairs :
    (flows : List Flow) (o : Flow × Result ℕ) (rest : Outcomes) (s : Scheduler) (os : Outcomes)
    → ((p : Flow → Bool) → count p (flows_of s.ended) ≡ one (p o.0) + count p (flows_of rest))
    → s.status ≡ running
    → Pairs flows s os
    → Pairs flows (collect_one o (record s { ended = rest })) (os ++ o ∷ [])
unfolding census
collect_one-Pairs flows (f, raise x) rest s os less r v = record {
  counted = λ p. omega (arith, v.counted p, less p, count-flows_of p os f (raise x));
  errors_eq = ap (λ l. l ++ x ∷ []) v.errors_eq ∙ sym (errors_in-append os ((f, raise x) ∷ []));
  saved = λ keep.
      let (results, by_flow) = v.saved keep in
      (
        results ∙ sym (results_in-append os ((f, raise x) ∷ []) ∙ append-nil (results_in os)),
        by_flow ∙ sym (map_in-append os ((f, raise x) ∷ []) []),
      );
  finished = λ ends. absurd (let e : running ≡ done = sym r ∙ ends in cc);
}
collect_one-Pairs flows (f, ok n) rest s os less r v =
    if-cases (λ t. Pairs flows t (os ++ (f, ok n) ∷ [])) s.save_results
      (record s {
        ended = rest;
        results = s.results ++ n ∷ [];
        result_map = put f.reference n s.result_map;
      })
      (record s { ended = rest })
      (λ saves. record {
        counted = counted;
        errors_eq = errors_eq;
        saved = λ keep.
            let (results, by_flow) = v.saved keep in
            (
              ap (λ l. l ++ n ∷ []) results ∙ sym (results_in-append os ((f, ok n) ∷ [])),
              ap (put f.reference n) by_flow ∙ sym (map_in-append os ((f, ok n) ∷ []) []),
            );
        finished = λ ends. absurd (let e : running ≡ done = sym r ∙ ends in cc);
      })
      (λ drops. record {
        counted = counted;
        errors_eq = errors_eq;
        saved = λ keep. absurd (let e : true ≡ false = sym keep ∙ drops in cc);
        finished = λ ends. absurd (let e : running ≡ done = sym r ∙ ends in cc);
      })
  where
    counted :
        (p : Flow → Bool)
        → census p (record s { ended = rest }) (os ++ (f, ok n) ∷ []) ≡ count p flows
    counted p = omega (arith, v.counted p, less p, count-flows_of p os f (ok n))

    errors_eq : s.collected ≡ errors_in (os ++ (f, ok n) ∷ [])
    errors_eq = v.errors_eq ∙ sym (errors_in-append os ((f, ok n) ∷ []) ∙ append-nil (errors_in os))

-- The outcomes after a step: they only grow.
abbrev Later : List Flow → Scheduler → Type 0
Later flows t = (os : Outcomes) × Pairs flows t os

report-Pairs :
    (flows fs : List Flow) (i : ℕ) (q : Option ((Flow × Result ℕ) × Outcomes)) (s t : Scheduler)
    (os : Outcomes)
    → pick i s.ended ≡ q
    → s.status ≡ running
    → Pairs flows s os
    → report_picked fs q s ≡ some t
    → Later flows t
report-Pairs flows (f ∷ fs) i q s t os e r v h = absurd cc
report-Pairs flows [] i none s t os e r v h = absurd cc
report-Pairs flows [] i (some (o, rest)) s t os e r v h = (
  os ++ o ∷ [],
  subst (λ u. Pairs flows u (os ++ o ∷ [])) (some-injective h)
      (collect_one-Pairs flows o rest s os (λ p. picked_outcome p i s.ended o rest e) r v),
)

close-Pairs :
    (flows a b c : List Flow) (d : Outcomes) (s t : Scheduler) (os : Outcomes)
    → s.flow_deque ≡ a
    → s.waiting ≡ b
    → s.executing ≡ c
    → s.ended ≡ d
    → Pairs flows s os
    → close_when a b c d s ≡ some t
    → Pairs flows t os
unfolding census
close-Pairs flows [] [] [] [] s t os e f g k v h =
    subst (λ u. Pairs flows u os) (some-injective h)
      (record {
        counted = v.counted;
        errors_eq = v.errors_eq;
        saved = v.saved;
        finished = λ ends. (
          refl,
          λ p. omega (
            arith,
            v.counted p,
            ap (count p) e,
            ap (count p) f,
            ap (count p) g,
            ap (λ l. count p (flows_of l)) k,
          ),
        );
      })
close-Pairs flows (x ∷ a) b c d s t os e f g k v h = absurd cc
close-Pairs flows [] (x ∷ b) c d s t os e f g k v h = absurd cc
close-Pairs flows [] [] (x ∷ c) d s t os e f g k v h = absurd cc
close-Pairs flows [] [] [] (x ∷ d) s t os e f g k v h = absurd cc

step_running-Pairs :
    (flows : List Flow) (e : Event) (s t : Scheduler) (os : Outcomes)
    → s.status ≡ running
    → Pairs flows s os
    → step_running e s ≡ some t
    → Later flows t
unfolding step_running census
step_running-Pairs flows submit s t os r v h =
    (os, submit-Pairs flows s.flow_deque s t os refl r v h)
step_running-Pairs flows begin s t os r v h = (os, begin-Pairs flows s.waiting s t os refl r v h)
step_running-Pairs flows (finish i o) s t os r v h =
    (os, finish-Pairs flows (pick i s.executing) i o s t os refl r v h)
step_running-Pairs flows (report i) s t os r v h =
    report-Pairs flows s.flow_deque i (pick i s.ended) s t os refl r v h
step_running-Pairs flows close s t os r v h = (
  os,
  close-Pairs flows s.flow_deque s.waiting s.executing s.ended s t os refl refl refl refl v h,
)
step_running-Pairs flows (fatal x) s t os r v h = (
  os,
  subst (λ u. Pairs flows u os) (some-injective h)
      (record {
        counted = v.counted;
        errors_eq = v.errors_eq;
        saved = v.saved;
        finished = λ ends. absurd cc;
      }),
)

pub Reach-Pairs :
    (flows : List Flow) {s t : Scheduler} (os : Outcomes)
    → Pairs flows s os
    → Reach s t
    → Later flows t
Reach-Pairs flows os v here = (os, v)
Reach-Pairs flows os v (next {t = t} {u = u} e h r) =
    let (runs, went) = step-running e t u h in
    let (before, pairs) = Reach-Pairs flows os v r in
    step_running-Pairs flows e t u before runs pairs went

insert_flow-count :
    (p : Flow → Bool) (f : Flow) (fs : List Flow)
    → count p (insert_flow f fs) ≡ one (p f) + count p fs
insert_flow-count p f [] = refl
insert_flow-count p f (g ∷ gs) = elim (Bool-cases (leb f.delay g.delay)) [
  | inl y ↦ rw (insert_flow, y) refl
  | inr n ↦ rw (insert_flow, n) (omega (arith, insert_flow-count p f gs))
]

pub sort_flows-count : (p : Flow → Bool) (fs : List Flow) → count p (sort_flows fs) ≡ count p fs
unfolding sort_flows
sort_flows-count p [] = refl
sort_flows-count p (f ∷ fs) =
    insert_flow-count p f (sort_flows fs) ∙ ap (λ n. one (p f) + n) (sort_flows-count p fs)
