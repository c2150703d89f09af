-- ===== src/Flows.antt =====
-- The flow scheduler (traffic/flow_scheduler.py) as a state machine: the thread that submits flows,
-- the pool with its workers, and the flows themselves take steps in any order. The time that passes
-- between the steps is left out; a delay is a number that is only compared.
pub mod Bounds
pub mod Steps
pub mod Outcome
pub mod Outcomes
pub mod Progress
use satgonetem.Base.{
  ℕ, zero, suc, ◌+◌, ◌-◌, Bool, true, false, not, ◌&&◌, Option, none, some, List, [], ◌∷◌, ◌++◌,
  Text, nat_eq, text_eq, ltb, leb, if◌then◌else◌, length, ◌≡◌, Dict, get, put, pop, Result, ok,
  raise, Exception, value_error, runtime_error, key_error, ◌>>=◌, require, or_raise,
}

pub data Status : Type 0 where
  idle running done error : Status

pub record Flow : Type 0 where
  pub reference : ℕ
  pub delay : ℕ
  pub label : Text

-- `FlowScheduler`, and what `_run` keeps: the flows still to be submitted, those that wait for a
-- worker, those that a worker executes, those that have ended with a result or an exception and
-- are not collected yet, and the exceptions collected so far.
pub record Scheduler : Type 0 where
  pub flows : List Flow
  pub max_workers : ℕ
  pub debug : Bool
  pub save_results : Bool
  pub active_flows : Dict Text ℕ
  pub results : List ℕ
  pub result_map : Dict ℕ ℕ
  pub total_count : ℕ
  pub completed_count : ℕ
  pub status : Status
  pub errors : List Exception
  pub scheduler_error : Option Exception
  pub flow_deque : List Flow
  pub waiting : List Flow
  pub executing : List Flow
  pub ended : List (Flow × Result ℕ)
  pub collected : List Exception

-- `sorted(flows, key=lambda f: f.delay)`, which is stable
abbrev pub insert_flow : Flow → List Flow → List Flow
insert_flow f [] = f ∷ []
insert_flow f (g ∷ gs) =
    let rest = insert_flow f gs in if leb f.delay g.delay then f ∷ g ∷ gs else g ∷ rest

unfoldable pub sort_flows : List Flow → List Flow
sort_flows [] = []
sort_flows (f ∷ fs) = insert_flow f (sort_flows fs)

-- `FlowScheduler.__init__`; the timeout is in milliseconds
abbrev pub valid_timeout : Option ℕ → Bool
valid_timeout none = true
valid_timeout (some t) = ltb 0 t

unfoldable pub new_scheduler : List Flow → ℕ → Bool → Option ℕ → Bool → Result Scheduler
unfolding sort_flows
new_scheduler flows max_workers debug timeout save_results = do
  _ ← require (leb 1 max_workers) value_error
  _ ← require (valid_timeout timeout) value_error
  ok (record {
    flows = sort_flows flows;
    max_workers = max_workers;
    debug = debug;
    save_results = save_results;
    active_flows = [];
    results = [];
    result_map = [];
    total_count = length flows;
    completed_count = 0;
    status = idle;
    errors = [];
    scheduler_error = none;
    flow_deque = [];
    waiting = [];
    executing = [];
    ended = [];
    collected = [];
  })

abbrev pub started : Scheduler → Scheduler
started s = record s {
  status = running;
  errors = [];
  results = [];
  result_map = [];
  completed_count = 0;
  active_flows = [];
  scheduler_error = none;
  flow_deque = s.flows;
  flows = [];
}

-- `FlowScheduler.run`, with the first lines of `_run`, which take the flows over
unfoldable pub run : Scheduler → Result Scheduler
run s = elim s.status [ idle ↦ ok (started s) | _ ↦ raise runtime_error ]

abbrev pub count_of : Option ℕ → ℕ
count_of none = 0
count_of (some n) = n

-- `_on_flow_start` and `_on_flow_done`, which are passed under `debug`
unfoldable pub on_flow_start : Flow → Scheduler → Scheduler
on_flow_start f s =
    if s.debug
    then record s {
      active_flows = put f.label (count_of (get f.label s.active_flows) + 1) s.active_flows;
    }
    else s

unfoldable pub on_flow_done : Flow → Scheduler → Scheduler
on_flow_done f s =
    let count = count_of (get f.label s.active_flows) in
    let left =
      if leb count 1 then pop f.label s.active_flows else put f.label (count - 1) s.active_flows in
    if s.debug then record s { completed_count = s.completed_count + 1; active_flows = left } else s

-- An element at a position, and the others.
unfoldable pub pick {ℓ} : {A : Type ℓ} → ℕ → List A → Option (A × List A)
pick n [] = none
pick zero (x ∷ xs) = some (x, xs)
pick (suc n) (x ∷ xs) = elim (pick n xs) [ none ↦ none | some p ↦ some (p.0, x ∷ p.1) ]

-- One round of the loop over completed futures
abbrev pub collect_one : Flow × Result ℕ → Scheduler → Scheduler
collect_one (f, raise x) s = record s { collected = s.collected ++ x ∷ [] }
collect_one (f, ok r) s =
    if s.save_results
    then record s { results = s.results ++ r ∷ []; result_map = put f.reference r s.result_map }
    else s

-- The steps: the thread submits the next flow, a free worker takes the flow that has waited
-- longest, a flow ends, the thread collects a completed future, the thread closes the run, and an
-- exception of the thread itself.
pub data Event : Type 0 where
  submit begin close : Event
  finish : ℕ → Result ℕ → Event
  report : ℕ → Event
  fatal : Exception → Event

abbrev pub submit_next : List Flow → Scheduler → Option Scheduler
submit_next [] s = none
submit_next (f ∷ fs) s = some (record s { flow_deque = fs; waiting = s.waiting ++ f ∷ [] })

abbrev pub begin_next : List Flow → Scheduler → Option Scheduler
begin_next [] s = none
begin_next (f ∷ fs) s =
    if ltb (length s.executing) s.max_workers
    then some (on_flow_start f (record s { waiting = fs; executing = s.executing ++ f ∷ [] }))
    else none

abbrev pub finish_picked : Option (Flow × List Flow) → Result ℕ → Scheduler → Option Scheduler
finish_picked none outcome s = none
finish_picked (some (f, rest)) outcome s =
    some (on_flow_done f (record s { executing = rest; ended = s.ended ++ (f, outcome) ∷ [] }))

abbrev pub report_picked :
    List Flow → Option ((Flow × Result ℕ) × List (Flow × Result ℕ)) → Scheduler → Option Scheduler
report_picked (_ ∷ _) p s = none
report_picked [] none s = none
report_picked [] (some (o, rest)) s = some (collect_one o (record s { ended = rest }))

abbrev pub close_when :
    List Flow → List Flow → List Flow → List (Flow × Result ℕ) → Scheduler → Option Scheduler
close_when [] [] [] [] s = some (record s { status = done; errors = s.collected })
close_when _ _ _ _ s = none

unfoldable pub step_running : Event → Scheduler → Option Scheduler
step_running submit s = submit_next s.flow_deque s
step_running begin s = begin_next s.waiting s
step_running (finish i outcome) s = finish_picked (pick i s.executing) outcome s
step_running (report i) s = report_picked s.flow_deque (pick i s.ended) s
step_running close s = close_when s.flow_deque s.waiting s.executing s.ended s
step_running (fatal x) s = some (record s { scheduler_error = some x; status = error })

-- A step is taken while the scheduler runs.
unfoldable pub step : Event → Scheduler → Option Scheduler
unfolding step_running
step e s = elim s.status [ running ↦ step_running e s | _ ↦ none ]

-- `FlowScheduler.errors` and `FlowScheduler.results`
unfoldable pub errors_of : Scheduler → Result (List Exception)
errors_of s = elim s.status [
  | running ↦ raise runtime_error
  | error ↦ raise runtime_error
  | _ ↦ ok s.errors
]

unfoldable pub result_of : Scheduler → Flow → Result ℕ
result_of s f = elim s.status [
  | running ↦ raise runtime_error
  | _ ↦
      if s.save_results
      then or_raise (get f.reference s.result_map) key_error
      else raise runtime_error
]

-- What the steps lead to.
pub data Reach (s : Scheduler) : Scheduler → Type 0 where
  here : Reach s s
  next : {t u : Scheduler} (e : Event) → step e t ≡ some u → Reach s t → Reach s u
