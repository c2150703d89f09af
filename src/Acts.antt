-- ===== src/Acts.antt =====
-- Code that reads and writes a state and may raise, as functions of the state. An exception leaves
-- what was done before it, as in Python.
pub mod Ends
pub mod Keeps
pub mod Leads
use satgonetem.Base.{
  ℕ, Bool, true, false, List, [], ◌∷◌, Result, ok, raise, Exception, runtime_error,
}

abbrev pub Act : Type 0 → Type 0 → Type 0
Act S A = S → S × Result A

module _ {S A : Type 0} where
  pub pure : A → Act S A
  pure a s = (s, ok a)

  pub fail : Exception → Act S A
  fail x s = (s, raise x)

  -- a call that neither reads nor changes the state, and may raise
  pub lift : Result A → Act S A
  lift r s = (s, r)

  -- reading the state
  pub gets : (S → A) → Act S A
  gets f s = (s, ok (f s))

  -- assignments to the state
  pub writes : (S → S) → A → Act S A
  writes f a s = (f s, ok a)

  abbrev pub handle : (Exception → Act S A) → S × Result A → S × Result A
  handle f (s, ok a) = (s, ok a)
  handle f (s, raise x) = f x s

  -- `try: act; except Exception as x: f(x)`
  pub rescue : Act S A → (Exception → Act S A) → Act S A
  rescue act f s = handle f (act s)

  abbrev pub after_last : Result A → S × Result (Unit {0}) → S × Result A
  after_last r (s, ok _) = (s, r)
  after_last r (s, raise x) = (s, raise x)

  -- `try: act; finally: last`
  pub ensure : Act S A → Act S (Unit {0}) → Act S A
  ensure act last s = let r = act s in after_last r.1 (last r.0)

abbrev pub on_runtime_error : {S A : Type 0} → Act S A → Exception → Act S A
on_runtime_error act runtime_error = act
on_runtime_error act x = fail x

-- `try: act; except RuntimeError: other`
abbrev pub rescue_runtime_error : {S A : Type 0} → Act S A → Act S A → Act S A
rescue_runtime_error act other = rescue act (on_runtime_error other)

module _ {S A B : Type 0} where
  abbrev pub continue : (A → Act S B) → S × Result A → S × Result B
  continue f (s, ok a) = f a s
  continue f (s, raise x) = (s, raise x)

  infixl 5 ◌>>=◌
  -- What comes after an act, unless it raised. To open this opens the acts above too.
  unfoldable pub ◌>>=◌ : (act : Act S A) (f : A → Act S B) → Act S B
  unfolding pure fail lift gets writes rescue ensure
  ◌>>=◌ act f s = continue f (act s)

  infixl 5 ◌>>◌
  abbrev pub ◌>>◌ : (act : Act S A) (after : Act S B) → Act S B
  act >> after = act >>= λ _. after

-- `for x in xs: f(x)`
abbrev pub each : {S A : Type 0} → (A → Act S (Unit {0})) → List A → Act S (Unit {0})
each f [] = pure tt
each f (x ∷ xs) = f x >> each f xs

-- `if test: act`
abbrev pub when : {S : Type 0} → Bool → Act S (Unit {0}) → Act S (Unit {0})
when true act = act
when false act = pure tt
