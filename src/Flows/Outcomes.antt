-- ===== src/Flows/Outcomes.antt =====
-- Each flow with its outcome, through any steps of the scheduler (traffic/flow_scheduler.py).
pub mod Reached
use satgonetem.Base.{
  ℕ, ◌+◌, ◌≡◌, refl, sym, ap, subst, ◌∙◌, Bool, true, false, Option, none, some, Option-cases,
  Bool-cases, inl, inr, List, [], ◌∷◌, ◌++◌, map, leb, if◌then◌else◌, put, nat_eq, Dict, Result, ok,
  raise, Exception, some-injective, arith, ltb, length, zero, suc,
}
use mathlib.Core.List.{append-nil, append_assoc}
use satgonetem.Flows.{
  running, done, error, Flow, Scheduler, sort_flows, insert_flow, on_flow_start, on_flow_done, pick,
  collect_one, submit_next, begin_next, finish_picked, Event, submit, begin, close, finish, report,
  fatal, report_picked, close_when, step_running, Reach, here, next,
}
use satgonetem.Flows.Bounds.{pick-none, pick-some}
use satgonetem.Flows.Steps.{if-cases, step-running}

abbrev pub Outcomes : Type 0
Outcomes = List (Flow × Result ℕ)

-- The exceptions, the results, and the results by the references of their flows, in the order of
-- the outcomes.
abbrev pub errors_in : Outcomes → List Exception
errors_in [] = []
errors_in ((f, ok r) ∷ os) = errors_in os
errors_in ((f, raise x) ∷ os) = x ∷ errors_in os

abbrev pub results_in : Outcomes → List ℕ
results_in [] = []
results_in ((f, ok r) ∷ os) = r ∷ results_in os
results_in ((f, raise x) ∷ os) = results_in os

abbrev pub map_in : Outcomes → Dict ℕ ℕ → Dict ℕ ℕ
map_in [] d = d
map_in ((f, ok r) ∷ os) d = map_in os (put f.reference r d)
map_in ((f, raise x) ∷ os) d = map_in os d

abbrev pub flows_of : Outcomes → List Flow
flows_of [] = []
flows_of ((f, o) ∷ os) = f ∷ flows_of os

abbrev pub one : Bool → ℕ
one true = 1
one false = 0

-- How many flows of a list a test accepts.
abbrev pub count : (Flow → Bool) → List Flow → ℕ
count p [] = 0
count p (f ∷ fs) = one (p f) + count p fs

count-append : (p : Flow → Bool) (a b : List Flow) → count p (a ++ b) ≡ count p a + count p b
count-append p [] b = omega arith
count-append p (f ∷ a) b = omega (arith, count-append p a b)

flows_of-append : (a b : Outcomes) → flows_of (a ++ b) ≡ flows_of a ++ flows_of b
flows_of-append [] b = refl
flows_of-append ((f, o) ∷ a) b = ap (λ l. f ∷ l) (flows_of-append a b)

pub errors_in-append : (a b : Outcomes) → errors_in (a ++ b) ≡ errors_in a ++ errors_in b
errors_in-append [] b = refl
errors_in-append ((f, ok r) ∷ a) b = errors_in-append a b
errors_in-append ((f, raise x) ∷ a) b = ap (λ l. x ∷ l) (errors_in-append a b)

pub results_in-append : (a b : Outcomes) → results_in (a ++ b) ≡ results_in a ++ results_in b
results_in-append [] b = refl
results_in-append ((f, ok r) ∷ a) b = ap (λ l. r ∷ l) (results_in-append a b)
results_in-append ((f, raise x) ∷ a) b = results_in-append a b

pub map_in-append : (a b : Outcomes) (d : Dict ℕ ℕ) → map_in (a ++ b) d ≡ map_in b (map_in a d)
map_in-append [] b d = refl
map_in-append ((f, ok r) ∷ a) b d = map_in-append a b (put f.reference r d)
map_in-append ((f, raise x) ∷ a) b d = map_in-append a b d

pub count-flows_of :
    (p : Flow → Bool) (a : Outcomes) (f : Flow) (o : Result ℕ)
    → count p (flows_of (a ++ (f, o) ∷ [])) ≡ count p (flows_of a) + one (p f)
count-flows_of p a f o =
    ap (count p) (flows_of-append a ((f, o) ∷ []))
    ∙ count-append p (flows_of a) (f ∷ [])
    ∙ omega arith

-- The flows that are on their way, and those whose outcomes were collected, as a test counts them.
unfoldable pub census : (Flow → Bool) → Scheduler → Outcomes → ℕ
census p s os =
    count p s.flow_deque
    + count p s.waiting
    + count p s.executing
    + count p (flows_of s.ended)
    + count p (flows_of os)

-- The outcomes collected so far are those of the flows, each counted once.
pub record Pairs (flows : List Flow) (s : Scheduler) (os : Outcomes) : Type 0 where
  pub counted : (p : Flow → Bool) → census p s os ≡ count p flows
  pub errors_eq : s.collected ≡ errors_in os
  pub saved : s.save_results ≡ true → (s.results ≡ results_in os) × (s.result_map ≡ map_in os [])
  pub finished :
      s.status ≡ done
      → (s.errors ≡ s.collected) × ((p : Flow → Bool) → count p (flows_of os) ≡ count p flows)

-- A step to a state that still runs and collects nothing.
moved :
    (flows : List Flow) (s t : Scheduler) (os : Outcomes)
    → Pairs flows s os
    → t.status ≡ running
    → ((p : Flow → Bool) → census p t os ≡ census p s os)
    → t.collected ≡ s.collected
    → t.save_results ≡ s.save_results
    → t.results ≡ s.results
    → t.result_map ≡ s.result_map
    → Pairs flows t os
moved flows s t os v runs same collected saves results result_map = record {
  counted = λ p. same p ∙ v.counted p;
  errors_eq = collected ∙ v.errors_eq;
  saved = λ keep. let (r, m) = v.saved (sym saves ∙ keep) in (results ∙ r, result_map ∙ m);
  finished = λ ends. absurd (let e : running ≡ done = sym runs ∙ ends in cc);
}

on_flow_start-Pairs :
    (flows : List Flow) (f : Flow) (s : Scheduler) (os : Outcomes)
    → s.status ≡ running
    → Pairs flows s os
    → Pairs flows (on_flow_start f s) os
unfolding on_flow_start census
on_flow_start-Pairs flows f s os r v =
    if-cases (λ t. Pairs flows t os) s.debug _ s
      (λ _. moved flows s _ os v r (λ p. refl) refl refl refl refl) (λ _. v)

on_flow_done-Pairs :
    (flows : List Flow) (f : Flow) (s : Scheduler) (os : Outcomes)
    → s.status ≡ running
    → Pairs flows s os
    → Pairs flows (on_flow_done f s) os
unfolding on_flow_done census
on_flow_done-Pairs flows f s os r v =
    if-cases (λ t. Pairs flows t os) s.debug _ s
      (λ _. moved flows s _ os v r (λ p. refl) refl refl refl refl) (λ _. v)

pub submit-Pairs :
    (flows fs : List Flow) (s t : Scheduler) (os : Outcomes)
    → s.flow_deque ≡ fs
    → s.status ≡ running
    → Pairs flows s os
    → submit_next fs s ≡ some t
    → Pairs flows t os
unfolding census
submit-Pairs flows [] s t os e r v h = absurd cc
submit-Pairs flows (f ∷ fs) s t os e r v h =
    subst (λ u. Pairs flows u os) (some-injective h)
      (moved flows s _ os v r
        (λ p. omega (arith, ap (count p) e, count-append p s.waiting (f ∷ []))) refl refl refl refl)

pub begin-Pairs :
    (flows fs : List Flow) (s t : Scheduler) (os : Outcomes)
    → s.waiting ≡ fs
    → s.status ≡ running
    → Pairs flows s os
    → begin_next fs s ≡ some t
    → Pairs flows t os
unfolding census
begin-Pairs flows [] s t os e r v h = absurd cc
begin-Pairs flows (f ∷ fs) s t os e r v h =
    elim (Bool-cases (ltb (length s.executing) s.max_workers)) [
      | inr full ↦ absurd (let e' : none ≡ some t = sym (rw full refl) ∙ h in cc)
      | inl free ↦
          let u : Scheduler = record s { waiting = fs; executing = s.executing ++ f ∷ [] } in
          let went : begin_next (f ∷ fs) s ≡ some (on_flow_start f u) =
            rw (begin_next, free) refl in
          subst (λ x. Pairs flows x os) (some-injective (sym went ∙ h))
            (on_flow_start-Pairs flows f u os r (
              moved flows s u os v r
                (λ p. omega (arith, ap (count p) e, count-append p s.executing (f ∷ []))) refl refl
                refl refl))
    ]

-- What is picked is taken out once.
pick-count {ℓ} :
    {A : Type ℓ} (flow : A → Flow) (p : Flow → Bool) (i : ℕ) (xs : List A) (x : A) (rest : List A)
    → pick i xs ≡ some (x, rest)
    → count p (map flow xs) ≡ one (p (flow x)) + count p (map flow rest)
unfolding pick
pick-count flow p i [] x rest e = absurd cc
pick-count flow p zero (y ∷ ys) x rest e =
    let same : (y, ys) ≡ (x, rest) = some-injective e in
    ap (λ q. one (p (flow q.0)) + count p (map flow q.1)) same
pick-count flow p (suc i) (y ∷ ys) x rest e = elim (Option-cases (pick i ys)) [
  | inl missing ↦ absurd (let e' : none ≡ some (x, rest) = sym (pick-none i y ys missing) ∙ e in cc)
  | inr (q, found) ↦
      let same : (q.0, y ∷ q.1) ≡ (x, rest) = some-injective (sym (pick-some i y ys q found) ∙ e) in
      let less : count p (map flow ys) ≡ one (p (flow q.0)) + count p (map flow q.1) =
        pick-count flow p i ys q.0 q.1 found in
      let all : count p (map flow (y ∷ ys)) ≡ one (p (flow q.0)) + count p (map flow (y ∷ q.1)) =
        omega (arith, less) in
      all ∙ ap (λ z. one (p (flow z.0)) + count p (map flow z.1)) same
]

map-id : (fs : List Flow) → map (λ f. f) fs ≡ fs
map-id [] = refl
map-id (f ∷ fs) = ap (λ l. f ∷ l) (map-id fs)

map-flows_of : (os : Outcomes) → map (λ o. o.0) os ≡ flows_of os
map-flows_of [] = refl
map-flows_of ((f, o) ∷ os) = ap (λ l. f ∷ l) (map-flows_of os)

picked_flow :
    (p : Flow → Bool) (i : ℕ) (xs : List Flow) (x : Flow) (rest : List Flow)
    → pick i xs ≡ some (x, rest)
    → count p xs ≡ one (p x) + count p rest
picked_flow p i xs x rest e =
    ap (count p) (sym (map-id xs))
    ∙ pick-count (λ f. f) p i xs x rest e
    ∙ ap (λ l. one (p x) + count p l) (map-id rest)

pub picked_outcome :
    (p : Flow → Bool) (i : ℕ) (xs : Outcomes) (x : Flow × Result ℕ) (rest : Outcomes)
    → pick i xs ≡ some (x, rest)
    → count p (flows_of xs) ≡ one (p x.0) + count p (flows_of rest)
picked_outcome p i xs x rest e =
    ap (count p) (sym (map-flows_of xs))
    ∙ pick-count (λ o. o.0) p i xs x rest e
    ∙ ap (λ l. one (p x.0) + count p l) (map-flows_of rest)

pub finish-Pairs :
    (flows : List Flow) (q : Option (Flow × List Flow)) (i : ℕ) (o : Result ℕ) (s t : Scheduler)
    (os : Outcomes)
    → pick i s.executing ≡ q
    → s.status ≡ running
    → Pairs flows s os
    → finish_picked q o s ≡ some t
    → Pairs flows t os
unfolding census
finish-Pairs flows none i o s t os e r v h = absurd cc
finish-Pairs flows (some (f, rest)) i o s t os e r v h =
    let u : Scheduler = record s { executing = rest; ended = s.ended ++ (f, o) ∷ [] } in
    subst (λ x. Pairs flows x os) (some-injective h)
      (on_flow_done-Pairs flows f u os r (
        moved flows s u os v r
          (λ p. omega (arith, picked_flow p i s.executing f rest e, count-flows_of p s.ended f o))
          refl refl refl refl))
