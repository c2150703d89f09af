-- ===== src/Flows/Outcome.antt =====
-- The creation of a scheduler, and what a run leads to (traffic/flow_scheduler.py).
use satgonetem.Base.{
  ℕ, ◌≤◌, ◌≡◌, refl, sym, ap, subst, ◌∙◌, Bool, true, false, Option, none, some, Bool-cases, inl,
  inr, List, [], ◌∷◌, ◌++◌, ltb, leb, length, nat_eq, Result, ok, ok-injective, some-injective,
  raise, value_error, require, ◌>>=◌, arith, leb→le,
}
use satgonetem.Flows.{
  idle, done, Flow, Scheduler, sort_flows, new_scheduler, valid_timeout, run, started,
  on_flow_start, on_flow_done, pick, collect_one, submit_next, begin_next, finish_picked, Event,
  submit, begin, close, finish, report, fatal, report_picked, close_when, step_running, Reach, here,
  next,
}
use satgonetem.Flows.Bounds.{tally, Inv}
use satgonetem.Flows.Outcomes.{
  Outcomes, flows_of, errors_in, results_in, map_in, count, census, Pairs,
}
use satgonetem.Flows.Outcomes.Reached.{Reach-Pairs, sort_flows-count}
use satgonetem.Flows.Steps.{if-cases, step-running, Reach-Inv, sort_flows-length}

-- What the creation of a scheduler gives.
pub record Created (s : Scheduler) (n workers : ℕ) (saves : Bool) : Type 0 where
  pub idle_eq : s.status ≡ idle
  pub flows_eq : length s.flows ≡ n
  pub total_eq : s.total_count ≡ n
  pub workers_eq : s.max_workers ≡ workers
  pub saves_eq : s.save_results ≡ saves
  pub some_worker : 1 ≤ workers
  pub none_waiting : s.waiting ≡ []
  pub none_executing : s.executing ≡ []
  pub none_ended : s.ended ≡ []
  pub none_collected : s.collected ≡ []

pub new_scheduler-Created :
    (flows : List Flow) (workers : ℕ) (debug : Bool) (timeout : Option ℕ) (saves : Bool)
    (s : Scheduler)
    → new_scheduler flows workers debug timeout saves ≡ ok s
    → Created s (length flows) workers saves
unfolding new_scheduler
new_scheduler-Created flows workers debug timeout saves s h =
    by_tests (leb 1 workers) (valid_timeout timeout) refl h
  where
    fresh : Scheduler
    fresh = record {
      flows = sort_flows flows;
      max_workers = workers;
      debug = debug;
      save_results = saves;
      active_flows = [];
      results = [];
      result_map = [];
      total_count = length flows;
      completed_count = 0;
      status = idle;
      errors = [];
      scheduler_error = none;
      flow_deque = [];
      waiting = [];
      executing = [];
      ended = [];
      collected = [];
    }

    by_tests :
        (a b : Bool)
        → leb 1 workers ≡ a
        → (require a value_error >>= λ _. require b value_error >>= λ _. ok fresh) ≡ ok s
        → Created s (length flows) workers saves
    by_tests false b t h = absurd cc
    by_tests true false t h = absurd cc
    by_tests true true t h =
        subst (λ (x : Scheduler). Created x (length flows) workers saves) (ok-injective h)
          (record {
            idle_eq = refl;
            flows_eq = sort_flows-length flows;
            total_eq = refl;
            workers_eq = refl;
            saves_eq = refl;
            some_worker = leb→le 1 workers t;
            none_waiting = refl;
            none_executing = refl;
            none_ended = refl;
            none_collected = refl;
          })

-- What no step changes.
abbrev pub fixed_part : Scheduler → ℕ × Bool × ℕ
fixed_part s = (s.max_workers, s.save_results, s.total_count)

on_flow_start-fixed_part :
    (f : Flow) (s : Scheduler) → fixed_part (on_flow_start f s) ≡ fixed_part s
unfolding on_flow_start
on_flow_start-fixed_part f s =
    if-cases (λ u. fixed_part u ≡ fixed_part s) s.debug _ _ (λ _. refl) (λ _. refl)

on_flow_done-fixed_part : (f : Flow) (s : Scheduler) → fixed_part (on_flow_done f s) ≡ fixed_part s
unfolding on_flow_done
on_flow_done-fixed_part f s =
    if-cases (λ u. fixed_part u ≡ fixed_part s) s.debug _ _ (λ _. refl) (λ _. refl)

collect_one-fixed_part :
    (o : Flow × Result ℕ) (s : Scheduler) → fixed_part (collect_one o s) ≡ fixed_part s
collect_one-fixed_part (f, raise x) s = refl
collect_one-fixed_part (f, ok r) s =
    if-cases (λ u. fixed_part u ≡ fixed_part s) s.save_results _ _ (λ _. refl) (λ _. refl)

begin_next-fixed_part :
    (fs : List Flow) (s t : Scheduler) → begin_next fs s ≡ some t → fixed_part t ≡ fixed_part s
begin_next-fixed_part [] s t h = absurd cc
begin_next-fixed_part (f ∷ fs) s t h = elim (Bool-cases (ltb (length s.executing) s.max_workers)) [
  | inr full ↦ absurd (let e' : none ≡ some t = sym (rw full refl) ∙ h in cc)
  | inl free ↦
      let u : Scheduler = record s { waiting = fs; executing = s.executing ++ f ∷ [] } in
      let went : begin_next (f ∷ fs) s ≡ some (on_flow_start f u) = rw (begin_next, free) refl in
      ap fixed_part (sym (some-injective (sym went ∙ h))) ∙ on_flow_start-fixed_part f u
]

submit_next-fixed_part :
    (fs : List Flow) (s t : Scheduler) → submit_next fs s ≡ some t → fixed_part t ≡ fixed_part s
submit_next-fixed_part [] s t h = absurd cc
submit_next-fixed_part (f ∷ fs) s t h = ap fixed_part (sym (some-injective h))

finish_picked-fixed_part :
    (p : Option (Flow × List Flow)) (o : Result ℕ) (s t : Scheduler)
    → finish_picked p o s ≡ some t
    → fixed_part t ≡ fixed_part s
finish_picked-fixed_part none o s t h = absurd cc
finish_picked-fixed_part (some (f, rest)) o s t h =
    ap fixed_part (sym (some-injective h))
    ∙ on_flow_done-fixed_part f (record s { executing = rest; ended = s.ended ++ (f, o) ∷ [] })

report_picked-fixed_part :
    (fs : List Flow) (p : Option ((Flow × Result ℕ) × List (Flow × Result ℕ))) (s t : Scheduler)
    → report_picked fs p s ≡ some t
    → fixed_part t ≡ fixed_part s
report_picked-fixed_part (f ∷ fs) p s t h = absurd cc
report_picked-fixed_part [] none s t h = absurd cc
report_picked-fixed_part [] (some (o, rest)) s t h =
    ap fixed_part (sym (some-injective h)) ∙ collect_one-fixed_part o (record s { ended = rest })

close_when-fixed_part :
    (a b c : List Flow) (d : List (Flow × Result ℕ)) (s t : Scheduler)
    → close_when a b c d s ≡ some t
    → fixed_part t ≡ fixed_part s
close_when-fixed_part [] [] [] [] s t h = ap fixed_part (sym (some-injective h))
close_when-fixed_part (x ∷ a) b c d s t h = absurd cc
close_when-fixed_part [] (x ∷ b) c d s t h = absurd cc
close_when-fixed_part [] [] (x ∷ c) d s t h = absurd cc
close_when-fixed_part [] [] [] (x ∷ d) s t h = absurd cc

step_running-fixed_part :
    (e : Event) (s t : Scheduler) → step_running e s ≡ some t → fixed_part t ≡ fixed_part s
unfolding step_running
step_running-fixed_part submit s t h = submit_next-fixed_part s.flow_deque s t h
step_running-fixed_part begin s t h = begin_next-fixed_part s.waiting s t h
step_running-fixed_part (finish i o) s t h = finish_picked-fixed_part (pick i s.executing) o s t h
step_running-fixed_part (report i) s t h =
    report_picked-fixed_part s.flow_deque (pick i s.ended) s t h
step_running-fixed_part close s t h =
    close_when-fixed_part s.flow_deque s.waiting s.executing s.ended s t h
step_running-fixed_part (fatal x) s t h = ap fixed_part (sym (some-injective h))

pub Reach-fixed_part : {s t : Scheduler} → Reach s t → fixed_part t ≡ fixed_part s
Reach-fixed_part here = refl
Reach-fixed_part (next {t = t} {u = u} e h r) =
    step_running-fixed_part e t u (step-running e t u h).1 ∙ Reach-fixed_part r

-- The first state of a run.
pub run-started : (s t : Scheduler) → s.status ≡ idle → run s ≡ ok t → started s ≡ t
unfolding run
run-started s t e h =
    let went : run s ≡ ok (started s) = rw (run, e) refl in ok-injective (sym went ∙ h)

started-Inv :
    (s : Scheduler) (n workers : ℕ) (saves : Bool) → Created s n workers saves → Inv (started s)
unfolding tally
started-Inv s n workers saves c =
    let all : tally (started s) ≡ n = omega (
      arith,
      c.flows_eq,
      ap length c.none_waiting,
      ap length c.none_executing,
      ap length c.none_ended,
      ap length c.none_collected,
    ) in
    record {
      bounded = omega (arith, ap length c.none_executing);
      within = omega (arith, all, c.total_eq);
      counted = λ _. all ∙ sym c.total_eq;
      finished = λ ends. absurd cc;
    }

new_scheduler-flows :
    (flows : List Flow) (workers : ℕ) (debug : Bool) (timeout : Option ℕ) (saves : Bool)
    (s : Scheduler)
    → new_scheduler flows workers debug timeout saves ≡ ok s
    → s.flows ≡ sort_flows flows
unfolding new_scheduler
new_scheduler-flows flows workers debug timeout saves s h = ground arith

started-Pairs :
    (flows : List Flow) (s : Scheduler) (n workers : ℕ) (saves : Bool)
    → Created s n workers saves
    → s.flows ≡ sort_flows flows
    → Pairs flows (started s) []
unfolding census
started-Pairs flows s n workers saves c sorted = record {
  counted = λ p. omega (
    arith,
    ap (count p) sorted,
    sort_flows-count p flows,
    ap (count p) c.none_waiting,
    ap (count p) c.none_executing,
    ap (λ os. count p (flows_of os)) c.none_ended,
  );
  errors_eq = c.none_collected;
  saved = λ keep. (refl, refl);
  finished = λ ends. absurd cc;
}

-- A scheduler that was created with a number of workers for some flows was started, and took any
-- steps. Then at most so many flows are executing. When it is done, there is a list of outcomes,
-- each a flow with its result or its exception, in which every test counts as many flows as among
-- the given ones, so that each has exactly one outcome; the errors are the exceptions of these
-- outcomes, in their order; and if the scheduler saves results, the results are theirs, in their
-- order, and each is stored under the reference of its own flow.
pub run_lem :
    (flows : List Flow) (workers : ℕ) (debug : Bool) (timeout : Option ℕ) (saves : Bool)
    (s t u : Scheduler)
    → new_scheduler flows workers debug timeout saves ≡ ok s
    → run s ≡ ok t
    → Reach t u
    → (length u.executing ≤ workers)
      × (u.status ≡ done
          → (os : Outcomes) × ((p : Flow → Bool) → count p (flows_of os) ≡ count p flows)
            × (u.errors ≡ errors_in os)
            × (saves ≡ true → (u.results ≡ results_in os) × (u.result_map ≡ map_in os [])))
run_lem flows workers debug timeout saves s t u made went reached =
    let c : Created s (length flows) workers saves =
      new_scheduler-Created flows workers debug timeout saves s made in
    let first : started s ≡ t = run-started s t c.idle_eq went in
    let v : Inv u =
      Reach-Inv (subst Inv first (started-Inv s (length flows) workers saves c)) reached in
    let fixed : fixed_part u ≡ fixed_part s =
      Reach-fixed_part reached ∙ ap fixed_part (sym first) in
    let workers_eq : u.max_workers ≡ workers = ap (λ x. x.0) fixed ∙ c.workers_eq in
    let saves_eq : u.save_results ≡ saves = ap (λ x. x.1) fixed ∙ c.saves_eq in
    let sorted : s.flows ≡ sort_flows flows =
      new_scheduler-flows flows workers debug timeout saves s made in
    let (os, pairs) =
      Reach-Pairs flows []
        (subst (λ x. Pairs flows x []) first
          (started-Pairs flows s (length flows) workers saves c sorted))
        reached in
    (
      omega (arith, v.bounded, workers_eq),
      λ ends.
          let (errors, counted) = pairs.finished ends in
          (os, counted, errors ∙ pairs.errors_eq, λ keeps. pairs.saved (saves_eq ∙ keeps)),
    )
