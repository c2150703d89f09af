-- ===== src/Flows/Bounds.antt =====
-- What holds of the scheduler after every step (traffic/flow_scheduler.py).
use satgonetem.Base.{
  ℕ, zero, suc, ◌+◌, ◌≤◌, ◌≡◌, refl, sym, ap, ◌∙◌, true, Option, none, some, Option-cases,
  Bool-cases, inl, inr, List, [], ◌∷◌, ◌++◌, ltb, length, length-append, Result, some-injective,
  subst, Exception, arith, ltb→lt,
}
use satgonetem.Flows.{
  running, done, error, Flow, Scheduler, on_flow_start, on_flow_done, pick, submit_next, begin_next,
  finish_picked,
}

-- The flows that are on their way, and the outcomes that are kept.
unfoldable pub tally : Scheduler → ℕ
tally s =
    length s.flow_deque
    + length s.waiting
    + length s.executing
    + length s.ended
    + length s.collected
    + length s.results

pub record Inv (s : Scheduler) : Type 0 where
  pub bounded : length s.executing ≤ s.max_workers
  pub within : tally s ≤ s.total_count
  pub counted : s.save_results ≡ true → tally s ≡ s.total_count
  pub finished :
      s.status ≡ done → (s.errors ≡ s.collected) × (length s.errors + length s.results ≡ tally s)

pub pick-none {ℓ} :
    {A : Type ℓ} (i : ℕ) (y : A) (ys : List A) → pick i ys ≡ none → pick (suc i) (y ∷ ys) ≡ none
unfolding pick
pick-none i y ys e = rw e refl

pub pick-some {ℓ} :
    {A : Type ℓ} (i : ℕ) (y : A) (ys : List A) (p : A × List A)
    → pick i ys ≡ some p
    → pick (suc i) (y ∷ ys) ≡ some (p.0, y ∷ p.1)
unfolding pick
pick-some i y ys p e = rw e refl

pub pick-length {ℓ} :
    {A : Type ℓ} (i : ℕ) (xs : List A) (x : A) (rest : List A)
    → pick i xs ≡ some (x, rest)
    → length xs ≡ suc (length rest)
unfolding pick
pick-length i [] x rest e = absurd cc
pick-length zero (y ∷ ys) x rest e =
    let same : (y, ys) ≡ (x, rest) = some-injective e in ap (λ p. suc (length p.1)) same
pick-length (suc i) (y ∷ ys) x rest e = elim (Option-cases (pick i ys)) [
  | inl missing ↦ absurd (let e' : none ≡ some (x, rest) = sym (pick-none i y ys missing) ∙ e in cc)
  | inr (p, found) ↦
      let same : (p.0, y ∷ p.1) ≡ (x, rest) = some-injective (sym (pick-some i y ys p found) ∙ e) in
      ap suc (pick-length i ys p.0 p.1 found) ∙ ap (λ q. suc (length q.1)) same
]

-- A step to a state that still runs, by the lengths of its lists.
pub still_running :
    (s t : Scheduler)
    → Inv s
    → t.status ≡ running
    → t.save_results ≡ s.save_results
    → t.total_count ≡ s.total_count
    → tally t ≡ tally s
    → length t.executing ≤ t.max_workers
    → Inv t
still_running s t v runs saved total same few = record {
  bounded = few;
  within = omega (arith, v.within);
  counted = λ keep. omega (arith, v.counted (sym saved ∙ keep));
  finished = λ ends. absurd (let e : running ≡ done = sym runs ∙ ends in cc);
}

pub submit-Inv :
    (fs : List Flow) (s t : Scheduler)
    → s.flow_deque ≡ fs
    → s.status ≡ running
    → Inv s
    → submit_next fs s ≡ some t
    → Inv t
unfolding tally
submit-Inv [] s t e r v h = absurd cc
submit-Inv (f ∷ fs) s t e r v h =
    let u : Scheduler = record s { flow_deque = fs; waiting = s.waiting ++ f ∷ [] } in
    subst Inv (some-injective h) (
      still_running s u v r refl refl (omega (arith, ap length e, length-append s.waiting (f ∷ [])))
        v.bounded)

-- What the callbacks of a flow leave as it is.
abbrev Quiet : Scheduler → Scheduler → Type 0
Quiet s t =
    (t.status ≡ s.status)
    × (t.save_results ≡ s.save_results)
    × (t.total_count ≡ s.total_count)
    × (tally t ≡ tally s)
    × (t.executing ≡ s.executing)
    × (t.max_workers ≡ s.max_workers)

on_flow_start-Quiet : (f : Flow) (s : Scheduler) → Quiet s (on_flow_start f s)
unfolding on_flow_start tally
on_flow_start-Quiet f s = elim (Bool-cases s.debug) [
  | inl y ↦ rw (on_flow_start, y) (refl, refl, refl, refl, refl, refl)
  | inr n ↦ rw (on_flow_start, n) (refl, refl, refl, refl, refl, refl)
]

on_flow_done-Quiet : (f : Flow) (s : Scheduler) → Quiet s (on_flow_done f s)
unfolding on_flow_done tally
on_flow_done-Quiet f s = elim (Bool-cases s.debug) [
  | inl y ↦ rw (on_flow_done, y) (refl, refl, refl, refl, refl, refl)
  | inr n ↦ rw (on_flow_done, n) (refl, refl, refl, refl, refl, refl)
]

Inv-Quiet : (s t : Scheduler) → s.status ≡ running → Quiet s t → Inv s → Inv t
Inv-Quiet s t r (status, saved, total, same, executing, workers) v =
    still_running s t v (status ∙ r) saved total same (
      subst (λ (p : List Flow × ℕ). length p.0 ≤ p.1)
        (sym (ap (λ es. (es, t.max_workers)) executing ∙ ap (λ n. (s.executing, n)) workers))
        v.bounded)

pub begin-Inv :
    (fs : List Flow) (s t : Scheduler)
    → s.waiting ≡ fs
    → s.status ≡ running
    → Inv s
    → begin_next fs s ≡ some t
    → Inv t
unfolding tally
begin-Inv [] s t e r v h = absurd cc
begin-Inv (f ∷ fs) s t e r v h = elim (Bool-cases (ltb (length s.executing) s.max_workers)) [
  | inr full ↦ absurd (let e' : none ≡ some t = sym (rw full refl) ∙ h in cc)
  | inl free ↦
      let u : Scheduler = record s { waiting = fs; executing = s.executing ++ f ∷ [] } in
      let moved : Inv u =
        still_running s u v r refl refl
          (omega (arith, ap length e, length-append s.executing (f ∷ [])))
          (omega (arith, ltb→lt _ _ free, length-append s.executing (f ∷ []))) in
      let went : begin_next (f ∷ fs) s ≡ some (on_flow_start f u) = rw (begin_next, free) refl in
      subst Inv (some-injective (sym went ∙ h))
        (Inv-Quiet u (on_flow_start f u) r (on_flow_start-Quiet f u) moved)
]

pub finish-Inv :
    (p : Option (Flow × List Flow)) (i : ℕ) (o : Result ℕ) (s t : Scheduler)
    → pick i s.executing ≡ p
    → s.status ≡ running
    → Inv s
    → finish_picked p o s ≡ some t
    → Inv t
unfolding tally
finish-Inv none i o s t e r v h = absurd cc
finish-Inv (some (f, rest)) i o s t e r v h =
    let u : Scheduler = record s { executing = rest; ended = s.ended ++ (f, o) ∷ [] } in
    let fewer : length s.executing ≡ suc (length rest) = pick-length i s.executing f rest e in
    let moved : Inv u =
      still_running s u v r refl refl (omega (arith, fewer, length-append s.ended ((f, o) ∷ [])))
        (omega (arith, fewer, v.bounded)) in
    subst Inv (some-injective h) (Inv-Quiet u (on_flow_done f u) r (on_flow_done-Quiet f u) moved)

pub fatal-Inv :
    (x : Exception) (s t : Scheduler)
    → Inv s
    → some (record s { scheduler_error = some x; status = error }) ≡ some t
    → Inv t
unfolding tally
fatal-Inv x s t v h = subst Inv (some-injective h) (record {
  bounded = v.bounded;
  within = v.within;
  counted = v.counted;
  finished = λ ends. absurd cc;
})
