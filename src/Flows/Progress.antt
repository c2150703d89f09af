-- ===== src/Flows/Progress.antt =====
-- A run can always be brought to its end (traffic/flow_scheduler.py).
use satgonetem.Base.{
  ℕ, zero, suc, ◌+◌, ◌*◌, ◌≤◌, ◌<◌, ◌≡◌, refl, sym, ap, ◌∙◌, Bool, true, Option, none, some, List,
  [], ◌∷◌, ◌++◌, ltb, length, length-append, Result, ok, raise, runtime_error, arith,
}
use satgonetem.Flows.{
  running, done, Flow, Scheduler, new_scheduler, run, started, on_flow_start, on_flow_done, pick,
  collect_one, Event, submit, begin, close, finish, report, submit_next, begin_next, finish_picked,
  report_picked, close_when, step_running, step, Reach, here, next,
}
use satgonetem.Flows.Steps.{if-cases}
use satgonetem.Flows.Outcome.{
  Created, new_scheduler-Created, run-started, Reach-fixed_part, fixed_part,
}

-- The steps that the flows still have to take.
measure : Scheduler → ℕ
measure s = 4 * length s.flow_deque + 3 * length s.waiting + 2 * length s.executing + length s.ended

-- A state that runs, has a worker, and has fewer steps to take than the bound.
record Ready (bound : ℕ) (s : Scheduler) : Type 0 where
  runs : s.status ≡ running
  worker : 1 ≤ s.max_workers
  few : measure s < bound

step-eq : (e : Event) (s : Scheduler) → s.status ≡ running → step e s ≡ step_running e s
unfolding step
step-eq e s r = ap (λ x. elim x [ running ↦ step_running e s | _ ↦ none ]) r

on_flow_start-Ready :
    (bound : ℕ) (f : Flow) (s : Scheduler) → Ready bound s → Ready bound (on_flow_start f s)
unfolding on_flow_start measure
on_flow_start-Ready bound f s v =
    if-cases (Ready bound) s.debug _ _
      (λ _. record { runs = v.runs; worker = v.worker; few = v.few }) (λ _. v)

on_flow_done-Ready :
    (bound : ℕ) (f : Flow) (s : Scheduler) → Ready bound s → Ready bound (on_flow_done f s)
unfolding on_flow_done measure
on_flow_done-Ready bound f s v =
    if-cases (Ready bound) s.debug _ _
      (λ _. record { runs = v.runs; worker = v.worker; few = v.few }) (λ _. v)

collect_one-Ready :
    (bound : ℕ) (o : Flow × Result ℕ) (s : Scheduler)
    → Ready bound s
    → Ready bound (collect_one o s)
unfolding measure
collect_one-Ready bound (f, raise x) s v = record { runs = v.runs; worker = v.worker; few = v.few }
collect_one-Ready bound (f, ok r) s v =
    if-cases (Ready bound) s.save_results _ _
      (λ _. record { runs = v.runs; worker = v.worker; few = v.few }) (λ _. v)

-- A state that is ready has ended all its flows, or takes a step that leaves fewer to take.
data Advance (bound : ℕ) (s : Scheduler) : Type 0 where
  closes : (t : Scheduler) → step close s ≡ some t → t.status ≡ done → Advance bound s
  advances : (e : Event) (t : Scheduler) → step e s ≡ some t → Ready bound t → Advance bound s

advance :
    (bound : ℕ) (s : Scheduler) (a b c : List Flow) (d : List (Flow × Result ℕ))
    → s.flow_deque ≡ a
    → s.executing ≡ b
    → s.waiting ≡ c
    → s.ended ≡ d
    → Ready (suc bound) s
    → Advance bound s
unfolding step_running pick measure
advance bound s (f ∷ a) b c d p q r t v =
    let u : Scheduler = record s { flow_deque = a; waiting = s.waiting ++ f ∷ [] } in
    advances submit u (step-eq submit s v.runs ∙ ap (λ l. submit_next l s) p) (record {
      runs = v.runs;
      worker = v.worker;
      few = omega (arith, v.few, ap length p, length-append s.waiting (f ∷ []));
    })
advance bound s [] (f ∷ b) c d p q r t v =
    let o : Result ℕ = raise runtime_error in
    let u : Scheduler = record s { executing = b; ended = s.ended ++ (f, o) ∷ [] } in
    advances (finish 0 o) (on_flow_done f u)
      (step-eq (finish 0 o) s v.runs ∙ ap (λ l. finish_picked (pick 0 l) o s) q)
      (on_flow_done-Ready bound f u (record {
        runs = v.runs;
        worker = v.worker;
        few = omega (arith, v.few, ap length q, length-append s.ended ((f, o) ∷ []));
      }))
advance bound s [] [] (f ∷ c) d p q r t v =
    let u : Scheduler = record s { waiting = c; executing = s.executing ++ f ∷ [] } in
    let free : ltb (length s.executing) s.max_workers ≡ true =
      ground (arith, ap length q, v.worker) in
    let went : begin_next (f ∷ c) s ≡ some (on_flow_start f u) = rw (begin_next, free) refl in
    advances begin (on_flow_start f u) (step-eq begin s v.runs ∙ ap (λ l. begin_next l s) r ∙ went)
      (on_flow_start-Ready bound f u (record {
        runs = v.runs;
        worker = v.worker;
        few = omega (arith, v.few, ap length r, length-append s.executing (f ∷ []));
      }))
advance bound s [] [] [] (o ∷ d) p q r t v =
    let u : Scheduler = record s { ended = d } in
    advances (report 0) (collect_one o u)
      (step-eq (report 0) s v.runs
        ∙ ap (λ l. report_picked l (pick 0 s.ended) s) p
        ∙ ap (λ l. report_picked [] (pick 0 l) s) t)
      (collect_one-Ready bound o u
        (record { runs = v.runs; worker = v.worker; few = omega (arith, v.few, ap length t) }))
advance bound s [] [] [] [] p q r t v =
    closes (record s { status = done; errors = s.collected })
      (step-eq close s v.runs
        ∙ ap (λ l. close_when l s.waiting s.executing s.ended s) p
        ∙ ap (λ l. close_when [] l s.executing s.ended s) r
        ∙ ap (λ l. close_when [] [] l s.ended s) q
        ∙ ap (λ l. close_when [] [] [] l s) t)
      refl

move_on : (bound : ℕ) (s : Scheduler) → Ready (suc bound) s → Advance bound s
move_on bound s v = advance bound s s.flow_deque s.executing s.waiting s.ended refl refl refl refl v

finishes :
    (bound : ℕ) (s t : Scheduler)
    → Reach s t
    → Ready bound t
    → (v : Scheduler) × Reach s v × (v.status ≡ done)
finishes zero s t r v = absurd (omega (arith, v.few))
finishes (suc bound) s t r v = elim (move_on bound t v) [
  | closes u h ends ↦ (u, next close h r, ends)
  | advances e u h w ↦ finishes bound s u (next e h r) w
]

-- Whatever steps a started scheduler took, while it runs there are steps that lead to the end of
-- the run: it never gets stuck.
pub Reach-done :
    (flows : List Flow) (workers : ℕ) (debug : Bool) (timeout : Option ℕ) (saves : Bool)
    (s t u : Scheduler)
    → new_scheduler flows workers debug timeout saves ≡ ok s
    → run s ≡ ok t
    → Reach t u
    → u.status ≡ running
    → (v : Scheduler) × Reach u v × (v.status ≡ done)
Reach-done flows workers debug timeout saves s t u made went reached runs =
    let c : Created s (length flows) workers saves =
      new_scheduler-Created flows workers debug timeout saves s made in
    let first : started s ≡ t = run-started s t c.idle_eq went in
    let fixed : fixed_part u ≡ fixed_part s =
      Reach-fixed_part reached ∙ ap fixed_part (sym first) in
    let workers_eq : u.max_workers ≡ workers = ap (λ x. x.0) fixed ∙ c.workers_eq in
    finishes (suc (measure u)) u u here
      (record { runs = runs; worker = omega (arith, workers_eq, c.some_worker); few = omega arith })
