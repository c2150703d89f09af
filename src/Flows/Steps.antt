-- ===== src/Flows/Steps.antt =====
-- The scheduler from its creation on, through any steps (traffic/flow_scheduler.py).
use satgonetem.Base.{
  ℕ, suc, ◌≡◌, refl, sym, ap, subst, ◌∙◌, Bool, true, false, Option, none, some, Bool-cases, inl,
  inr, List, [], ◌∷◌, ◌++◌, leb, if◌then◌else◌, length, length-append, put, nat_eq, Result, ok,
  some-injective, raise, arith,
}
use satgonetem.Flows.{
  Status, idle, running, done, error, Flow, Scheduler, sort_flows, insert_flow, pick, collect_one,
  Event, submit, begin, close, finish, report, fatal, report_picked, close_when, step_running, step,
  Reach, here, next,
}
use satgonetem.Flows.Bounds.{
  tally, Inv, pick-length, still_running, submit-Inv, begin-Inv, finish-Inv, fatal-Inv,
}

pub if-cases {ℓ κ} :
    {A : Type ℓ} (P : A → Type κ) (b : Bool) (x y : A)
    → (b ≡ true → P x)
    → (b ≡ false → P y)
    → P (if b then x else y)
if-cases P true x y p q = p refl
if-cases P false x y p q = q refl

collect_one-Inv :
    (o : Flow × Result ℕ) (rest : List (Flow × Result ℕ)) (s : Scheduler)
    → length s.ended ≡ suc (length rest)
    → s.status ≡ running
    → Inv s
    → Inv (collect_one o (record s { ended = rest }))
unfolding tally
collect_one-Inv (f, raise x) rest s fewer r v =
    still_running s _ v r refl refl (omega (arith, fewer, length-append s.collected (x ∷ [])))
      v.bounded
collect_one-Inv (f, ok n) rest s fewer r v =
    let kept : Scheduler = record s {
      ended = rest;
      results = s.results ++ n ∷ [];
      result_map = put f.reference n s.result_map;
    } in
    let dropped : Scheduler = record s { ended = rest } in
    if-cases Inv s.save_results kept dropped
      (λ saves.
        still_running s kept v r refl refl (omega (arith, fewer, length-append s.results (n ∷ [])))
          v.bounded)
      (λ drops. record {
        bounded = v.bounded;
        within = omega (arith, fewer, v.within);
        counted = λ saves. absurd (let e : true ≡ false = sym saves ∙ drops in cc);
        finished = λ ends. absurd (let e : running ≡ done = sym r ∙ ends in cc);
      })

report-Inv :
    (fs : List Flow) (i : ℕ) (p : Option ((Flow × Result ℕ) × List (Flow × Result ℕ)))
    (s t : Scheduler)
    → pick i s.ended ≡ p
    → s.status ≡ running
    → Inv s
    → report_picked fs p s ≡ some t
    → Inv t
report-Inv (f ∷ fs) i p s t e r v h = absurd cc
report-Inv [] i none s t e r v h = absurd cc
report-Inv [] i (some (o, rest)) s t e r v h =
    subst Inv (some-injective h) (collect_one-Inv o rest s (pick-length i s.ended o rest e) r v)

close-Inv :
    (a b c : List Flow) (d : List (Flow × Result ℕ)) (s t : Scheduler)
    → s.flow_deque ≡ a
    → s.waiting ≡ b
    → s.executing ≡ c
    → s.ended ≡ d
    → Inv s
    → close_when a b c d s ≡ some t
    → Inv t
unfolding tally
close-Inv [] [] [] [] s t e f g k v h = subst Inv (some-injective h) (record {
  bounded = v.bounded;
  within = v.within;
  counted = v.counted;
  finished = λ ends. (refl, omega (arith, ap length e, ap length f, ap length g, ap length k));
})
close-Inv (x ∷ a) b c d s t e f g k v h = absurd cc
close-Inv [] (x ∷ b) c d s t e f g k v h = absurd cc
close-Inv [] [] (x ∷ c) d s t e f g k v h = absurd cc
close-Inv [] [] [] (x ∷ d) s t e f g k v h = absurd cc

step_running-Inv :
    (e : Event) (s t : Scheduler) → s.status ≡ running → Inv s → step_running e s ≡ some t → Inv t
unfolding step_running
step_running-Inv submit s t r v h = submit-Inv s.flow_deque s t refl r v h
step_running-Inv begin s t r v h = begin-Inv s.waiting s t refl r v h
step_running-Inv (finish i o) s t r v h = finish-Inv (pick i s.executing) i o s t refl r v h
step_running-Inv (report i) s t r v h = report-Inv s.flow_deque i (pick i s.ended) s t refl r v h
step_running-Inv close s t r v h =
    close-Inv s.flow_deque s.waiting s.executing s.ended s t refl refl refl refl v h
step_running-Inv (fatal x) s t r v h = fatal-Inv x s t v h

-- A step is taken from a state that runs only.
pub step-running :
    (e : Event) (s t : Scheduler)
    → step e s ≡ some t
    → (s.status ≡ running) × (step_running e s ≡ some t)
unfolding step
step-running e s t h = by_status s.status refl h
  where
    by_status :
        (x : Status)
        → s.status ≡ x
        → elim x [ running ↦ step_running e s | _ ↦ none ] ≡ some t
        → (s.status ≡ running) × (step_running e s ≡ some t)
    by_status running q h = (q, h)
    by_status idle q h = absurd cc
    by_status done q h = absurd cc
    by_status error q h = absurd cc

pub Reach-Inv : {s t : Scheduler} → Inv s → Reach s t → Inv t
Reach-Inv v here = v
Reach-Inv v (next {t = t} {u = u} e h r) =
    let (runs, went) = step-running e t u h in step_running-Inv e t u runs (Reach-Inv v r) went

insert_flow-length : (f : Flow) (fs : List Flow) → length (insert_flow f fs) ≡ suc (length fs)
insert_flow-length f [] = refl
insert_flow-length f (g ∷ gs) = elim (Bool-cases (leb f.delay g.delay)) [
  | inl y ↦ rw (insert_flow, y) refl
  | inr n ↦ rw (insert_flow, n) (ap suc (insert_flow-length f gs))
]

pub sort_flows-length : (fs : List Flow) → length (sort_flows fs) ≡ length fs
unfolding sort_flows
sort_flows-length [] = refl
sort_flows-length (f ∷ fs) = insert_flow-length f (sort_flows fs) ∙ ap suc (sort_flows-length fs)
