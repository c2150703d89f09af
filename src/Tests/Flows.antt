-- ===== src/Tests/Flows.antt =====
-- The flow scheduler at concrete inputs (traffic/flow_scheduler.py).
use satgonetem.Base.{
  ◌≤◌, ◌≡◌, refl, sym, ◌∙◌, subst, Bool, true, Option, Option-cases, inl, inr, some-injective, none,
  some, List, [], ◌∷◌, codes, length, ok, raise, value_error, nat_eq, text_eq,
}
use satgonetem.Flows.{
  idle, pick, on_flow_start, on_flow_done, Event, begin, finish, report, close, Flow, Scheduler,
  submit, new_scheduler, sort_flows, run, step, step_running, Reach, here, next, started, running,
  done,
}
use satgonetem.Flows.Outcome.{run_lem}
use satgonetem.Flows.Outcomes.{Outcomes, flows_of, errors_in, results_in, map_in, count}
use satgonetem.Flows.Progress.{Reach-done}

abbrev late : Flow
late = record { reference = 1; delay = 20; label = codes "PingFlow Gnd1 -> Gnd2" }

abbrev early : Flow
early = record { reference = 2; delay = 5; label = codes "PingFlow Gnd2 -> Gnd3" }

unfoldable created : Scheduler
created = record {
  flows = early ∷ late ∷ [];
  max_workers = 1;
  debug = true;
  save_results = true;
  active_flows = [];
  results = [];
  result_map = [];
  total_count = 2;
  completed_count = 0;
  status = idle;
  errors = [];
  scheduler_error = none;
  flow_deque = [];
  waiting = [];
  executing = [];
  ended = [];
  collected = [];
}

created-made : new_scheduler (late ∷ early ∷ []) 1 true (some 180000) true ≡ ok created
unfolding new_scheduler sort_flows created
created-made = refl

created-run : run created ≡ ok (started created)
unfolding run created
created-run = refl

unfoldable one_submitted : Scheduler
unfolding created
one_submitted = record (started created) { flow_deque = late ∷ []; waiting = early ∷ [] }

one_submitted-reached : Reach (started created) one_submitted
unfolding one_submitted created step step_running
one_submitted-reached = next submit refl here

one_submitted-running : one_submitted.status ≡ running
unfolding one_submitted
one_submitted-running = refl

abbrev take_steps : List Event → Scheduler → Option Scheduler
unfolding step step_running
take_steps [] s = some s
take_steps (e ∷ es) s = elim (step e s) [ none ↦ none | some t ↦ take_steps es t ]

take_steps-Reach :
    (es : List Event) {s t u : Scheduler} → Reach s t → take_steps es t ≡ some u → Reach s u
unfolding take_steps
take_steps-Reach [] {s = s} r h = subst (Reach s) (some-injective h) r
take_steps-Reach (e ∷ es) {s = s} {t = t} {u = u} r h = elim (Option-cases (step e t)) [
  | inl stuck ↦ absurd (let e' : none ≡ some u = sym (rw (take_steps, stuck) refl) ∙ h in cc)
  | inr (v, went) ↦ take_steps-Reach es (next e went r) (sym (rw (take_steps, went) refl) ∙ h)
]

-- One worker executes the early flow, which has a result, and the late one, which raises.
abbrev whole_run : List Event
whole_run =
    submit
    ∷ begin
    ∷ submit
    ∷ finish 0 (ok 70)
    ∷ begin
    ∷ finish 0 (raise value_error)
    ∷ report 1
    ∷ report 0
    ∷ close
    ∷ []

unfoldable ended_run : Scheduler
unfolding created
ended_run = record (started created) {
  flow_deque = [];
  status = done;
  completed_count = 2;
  results = 70 ∷ [];
  result_map = (early.reference, 70) ∷ [];
  collected = value_error ∷ [];
  errors = value_error ∷ [];
}

whole_run-ended_run : take_steps whole_run (started created) ≡ some ended_run
unfolding take_steps created ended_run step step_running pick on_flow_start on_flow_done
whole_run-ended_run = refl

run_lem_example :
    (length ended_run.executing ≤ 1)
    × (ended_run.status ≡ done
        → (os : Outcomes) × ((p : Flow → Bool)
            → count p (flows_of os) ≡ count p (late ∷ early ∷ []))
          × (ended_run.errors ≡ errors_in os)
          × (true ≡ true
              → (ended_run.results ≡ results_in os) × (ended_run.result_map ≡ map_in os [])))
run_lem_example =
    run_lem (late ∷ early ∷ []) 1 true (some 180000) true created (started created) ended_run
      created-made created-run (take_steps-Reach whole_run here whole_run-ended_run)

Reach-done_example : (v : Scheduler) × Reach one_submitted v × (v.status ≡ done)
Reach-done_example =
    Reach-done (late ∷ early ∷ []) 1 true (some 180000) true created (started created) one_submitted
      created-made created-run one_submitted-reached one_submitted-running
