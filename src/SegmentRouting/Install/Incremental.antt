-- ===== src/SegmentRouting/Install/Incremental.antt =====
-- The installation of changed lines only leaves every line of a node in force.
use satgonetem.Base.{
  ℕ, ◌≡◌, ◌≢◌, refl, sym, ◌∙◌, ap, inl, inr, ◌⊎◌, Bool, true, not, List, [], ◌∷◌, ◌++◌, Text, put,
  get-put, mem, mem-filter, nat_eq, list_eq, text_eq, if◌then◌else◌, ◌==◌, ==_refl, Bool-cases,
  arith, subst,
}
use mathlib.Core.List.{append-nil}
use satgonetem.SegmentRouting.Install.{
  Lines, Batches, lines_at, changed_lines, hand_over, install_changed,
}

-- The tables of a node as the daemon relies on them: `exec` gives the tables after a line has run,
-- and whether it succeeded. A `replace` line that succeeded is in force, and stays so while lines run
-- that are about other routes. A line fails, for example, where its device is missing.
pub record Tables : Type 1 where
  pub State : Type 0
  pub exec : State → Text → State × Bool
  pub InForce : State → Text → Type 0
  pub Apart : Text → Text → Type 0
  pub exec_here : (s : State) (line : Text) → (exec s line).1 ≡ true → InForce (exec s line).0 line
  pub exec_apart :
      (s : State) (line other : Text)
      → Apart line other
      → InForce s other
      → InForce (exec s line).0 other

module _ (tables : Tables) where
  open tables use {State, exec, InForce, Apart, exec_here, exec_apart}

  unfoldable pub run : State → List Text → State
  run s [] = s
  run s (line ∷ lines) = run (exec s line).0 lines

  -- Each line succeeds, after those before it.
  abbrev pub AllSucceed : State → List Text → Type 0
  AllSucceed s [] = Unit
  AllSucceed s (line ∷ lines) = ((exec s line).1 ≡ true) × AllSucceed (exec s line).0 lines

  abbrev pub AllInForce : State → List Text → Type 0
  AllInForce s lines = (line : Text) → mem line lines ≡ true → InForce s line

  -- Different lines of a node are about different routes.
  abbrev pub AllApart : List Text → Type 0
  AllApart lines = (a b : Text) → mem a lines ≡ true → mem b lines ≡ true → a ≢ b → Apart a b

  run-keeps :
      (s : State) (lines : List Text) (b : Text)
      → ((a : Text) → mem a lines ≡ true → a ≢ b → Apart a b)
      → AllSucceed s lines
      → InForce s b
      → InForce (run s lines) b
  unfolding run
  run-keeps s [] b apart works h = h
  run-keeps s (a ∷ lines) b apart (works, more) h = elim (Bool-cases (a == b)) [
    | inl y ↦
        run-keeps (exec s a).0 lines b (λ c m. apart c (ground arith)) more
          (subst (λ x. InForce (exec s a).0 x) ((text_eq.beq_iff a b).0 y) (exec_here s a works))
    | inr n ↦
        run-keeps (exec s a).0 lines b (λ c m. apart c (ground arith)) more
          (exec_apart s a b
            (apart a (ground (arith, ==_refl a))
              (λ e. let y : (a == b) ≡ true = (text_eq.beq_iff a b).1 e in ground arith))
            h)
  ]

  run-installs :
      (s : State) (lines : List Text) (b : Text)
      → ((a : Text) → mem a lines ≡ true → a ≢ b → Apart a b)
      → AllSucceed s lines
      → mem b lines ≡ true
      → InForce (run s lines) b
  unfolding run
  run-installs s [] b apart works m = absurd (ground arith)
  run-installs s (a ∷ lines) b apart (works, more) m = elim (Bool-cases (a == b)) [
    | inl y ↦
        run-keeps (exec s a).0 lines b (λ c m'. apart c (ground arith)) more
          (subst (λ x. InForce (exec s a).0 x) ((text_eq.beq_iff a b).0 y) (exec_here s a works))
    | inr n ↦ run-installs (exec s a).0 lines b (λ c m'. apart c (ground arith)) more (ground arith)
  ]

  -- If the previous lines are in force, the new lines are about different routes and the changed ones
  -- succeed, then these leave every new line in force.
  pub changed_lines-AllInForce :
      (s : State) (prev commands : List Text)
      → AllApart commands
      → AllInForce s prev
      → AllSucceed s (changed_lines prev commands)
      → AllInForce (run s (changed_lines prev commands)) commands
  changed_lines-AllInForce s prev commands apart before works line m =
      elim (Bool-cases (mem line prev)) [
        | inl old ↦
            run-keeps s (changed_lines prev commands) line from_commands works (before line old)
        | inr new ↦
            run-installs s (changed_lines prev commands) line from_commands works
              (ground (arith, mem-filter (λ l. not (mem l prev)) line commands))
      ]
    where
      from_commands :
          (a : Text) → mem a (changed_lines prev commands) ≡ true → a ≢ line → Apart a line
      from_commands a h =
          apart a line (ground (arith, mem-filter (λ l. not (mem l prev)) a commands)) m

-- The rows of `install_changed`, node by node.
lines_at-put :
    (id other : ℕ) (commands : List Text) (prev : Lines)
    → lines_at other (put id commands prev)
      ≡ (if id == other then commands else lines_at other prev)
lines_at-put id other commands prev = ground (arith, get-put id other commands prev)

abbrev pub batch : ℕ → List Text → Batches
batch id [] = []
batch id (line ∷ lines) = (id, line ∷ lines) ∷ []

module _ (tables : Tables) (executes : ℕ → List Text → Bool) where
  open tables use {State, InForce}

  install_changed-rows :
      (id : ℕ) (commands : List Text) (prev prev' : Lines) (sent sent' : Batches) (ran : List Text)
      → ((lines : List Text) → executes id lines ≡ true)
      → hand_over executes id commands (prev, sent) ran ≡ (prev', sent')
      → (sent' ≡ sent ++ batch id ran)
        × (((ran ≡ []) × (prev' ≡ prev)) ⊎ (prev' ≡ put id commands prev))
  install_changed-rows id commands prev prev' sent sent' [] works h =
      (ap (λ x. x.1) (sym h) ∙ sym (append-nil sent), inl (refl, ap (λ x. x.0) (sym h)))
  install_changed-rows id commands prev prev' sent sent' (line ∷ lines) works h = (
    ap (λ x. x.1) (sym h),
    inr (
        ap (λ x. x.0) (sym h)
        ∙ ap (λ b. if b then put id commands prev else prev) (works (line ∷ lines))),
  )

  -- A line that succeeds is in force, and stays so while lines about other routes run. The lines
  -- last installed on a node are in force, its new lines are about different routes, those that
  -- changed succeed one after the other, and the container runs its batches. Then the one batch
  -- that is handed over, if there is any, leaves every new line in force, and every line of the row
  -- that is kept for the next time; the rows of other nodes stay as they are.
  pub install_changed-AllInForce :
      (id : ℕ) (commands : List Text) (prev prev' : Lines) (sent sent' : Batches) (s : State)
      → AllApart tables commands
      → AllInForce tables s (lines_at id prev)
      → AllSucceed tables s (changed_lines (lines_at id prev) commands)
      → ((lines : List Text) → executes id lines ≡ true)
      → install_changed executes id commands (prev, sent) ≡ (prev', sent')
      → (ran : List Text) × (sent' ≡ sent ++ batch id ran)
        × AllInForce tables (run tables s ran) commands
        × AllInForce tables (run tables s ran) (lines_at id prev')
        × ((other : ℕ) → other ≢ id → lines_at other prev' ≡ lines_at other prev)
  unfolding install_changed run
  install_changed-AllInForce id commands prev prev' sent sent' s apart before succeed works h =
      let ran = changed_lines (lines_at id prev) commands in
      let (handed, rows) = install_changed-rows id commands prev prev' sent sent' ran works h in
      let installed =
        changed_lines-AllInForce tables s (lines_at id prev) commands apart before succeed in
      (
        ran,
        handed,
        installed,
        elim rows [
          | inl (nothing, same) ↦ λ line m.
              subst (λ r. InForce (run tables s r) line) (sym nothing)
                (before line (ap (λ d. mem line (lines_at id d)) (sym same) ∙ m))
          | inr written ↦
              subst (λ ls. AllInForce tables (run tables s ran) ls)
                (sym (
                  ap (lines_at id) written
                  ∙ ground (arith, lines_at-put id id commands prev, ==_refl id)))
                installed
        ],
        λ other ne. elim rows [
          | inl (nothing, same) ↦ ap (lines_at other) same
          | inr written ↦
              ap (lines_at other) written
              ∙ ground (arith, lines_at-put id other commands prev, nat_eq.beq_iff id other)
        ],
      )
