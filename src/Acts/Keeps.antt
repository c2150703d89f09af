-- ===== src/Acts/Keeps.antt =====
-- What holds of the state before an act, and still holds after it: a rule for each way to build one.
use satgonetem.Base.{
  ◌≡◌, refl, Bool, true, false, List, [], ◌∷◌, Result, ok, raise, Exception, if◌then◌else◌,
}
use satgonetem.Acts.{
  Act, pure, fail, lift, gets, writes, rescue, ensure, handle, after_last, on_runtime_error,
  continue, ◌>>=◌, each, when,
}

-- Whether the act raises or not, the property is kept.
pub record Keeps {S A : Type 0} (I : S → Type 0) (act : Act S A) : Type 0 where
  pub holds : (s : S) → I s → I (act s).0

at_last :
    {S A : Type 0} (I : S → Type 0) (r : Result A) (l : S × Result (Unit {0}))
    → I l.0
    → I (after_last r l).0
at_last I r (s, ok _) h = h
at_last I r (s, raise x) h = h

module _ {S A : Type 0} {I : S → Type 0} where
  pub pure-Keeps : (a : A) → Keeps I (pure a)
  unfolding pure
  pure-Keeps a = record { holds = λ s h. h }

  pub fail-Keeps : (x : Exception) → Keeps I (fail {A = A} x)
  unfolding fail
  fail-Keeps x = record { holds = λ s h. h }

  pub lift-Keeps : (r : Result A) → Keeps I (lift r)
  unfolding lift
  lift-Keeps r = record { holds = λ s h. h }

  pub gets-Keeps : (f : S → A) → Keeps I (gets f)
  unfolding gets
  gets-Keeps f = record { holds = λ s h. h }

  pub writes-Keeps : (f : S → S) (a : A) → ((s : S) → I s → I (f s)) → Keeps I (writes f a)
  unfolding writes
  writes-Keeps f a k = record { holds = k }

  handled :
      (f : Exception → Act S A) (r : S × Result A)
      → ((x : Exception) → Keeps I (f x))
      → I r.0
      → I (handle f r).0
  handled f (s, ok a) k h = h
  handled f (s, raise x) k h = (k x).holds s h

  pub rescue-Keeps :
      (act : Act S A) (f : Exception → Act S A)
      → Keeps I act
      → ((x : Exception) → Keeps I (f x))
      → Keeps I (rescue act f)
  unfolding rescue
  rescue-Keeps act f k l = record { holds = λ s h. handled f (act s) l (k.holds s h) }

  pub ensure-Keeps :
      (act : Act S A) (last : Act S (Unit {0}))
      → Keeps I act
      → Keeps I last
      → Keeps I (ensure act last)
  unfolding ensure
  ensure-Keeps act last k l = record {
    holds = λ s h. at_last I (act s).1 (last (act s).0) (l.holds (act s).0 (k.holds s h));
  }

  pub on_runtime_error-Keeps :
      (act : Act S A) (x : Exception) → Keeps I act → Keeps I (on_runtime_error act x)
  on_runtime_error-Keeps act Exception.runtime_error k = k
  on_runtime_error-Keeps act Exception.value_error k = fail-Keeps _
  on_runtime_error-Keeps act Exception.key_error k = fail-Keeps _
  on_runtime_error-Keeps act Exception.index_error k = fail-Keeps _
  on_runtime_error-Keeps act Exception.attribute_error k = fail-Keeps _
  on_runtime_error-Keeps act Exception.type_error k = fail-Keeps _
  on_runtime_error-Keeps act Exception.no_path k = fail-Keeps _
  on_runtime_error-Keeps act Exception.zero_division_error k = fail-Keeps _

  pub if-Keeps :
      (b : Bool) (act other : Act S A)
      → Keeps I act
      → Keeps I other
      → Keeps I (if b then act else other)
  if-Keeps true act other k l = k
  if-Keeps false act other k l = l

module _ {S A B : Type 0} {I : S → Type 0} where
  continued :
      (f : A → Act S B) (r : S × Result A) → ((a : A) → Keeps I (f a)) → I r.0 → I (continue f r).0
  continued f (s, ok a) k h = (k a).holds s h
  continued f (s, raise x) k h = h

  pub >>=-Keeps :
      (act : Act S A) (f : A → Act S B)
      → Keeps I act
      → ((a : A) → Keeps I (f a))
      → Keeps I (act >>= f)
  unfolding ◌>>=◌
  >>=-Keeps act f k l = record { holds = λ s h. continued f (act s) l (k.holds s h) }

  -- Reading a value that may be missing; what follows may use that it is there.
  pub reading_Keeps :
      (f : S → Result A) (g : A → Act S B)
      → ((a : A) (s : S) → f s ≡ ok a → I s → I (g a s).0)
      → Keeps I (gets f >>= λ r. lift r >>= g)
  unfolding ◌>>=◌ gets lift
  reading_Keeps f g k = record { holds = λ s h. read s (f s) refl h }
    where
      read : (s : S) (r : Result A) → f s ≡ r → I s → I (continue g (s, r)).0
      read s (ok a) e h = k a s e h
      read s (raise x) e h = h

  -- An assignment after which more holds than before.
  pub Keeps-after_writes :
      {J : S → Type 0} (f : S → S) (a : A) (act : Act S B)
      → ((s : S) → I s → J (f s))
      → ((s : S) → J s → I s)
      → Keeps J act
      → Keeps I (writes f a >>= λ _. act)
  unfolding ◌>>=◌ writes
  Keeps-after_writes f a act up down k = record {
    holds = λ s h. down (act (f s)).0 (k.holds (f s) (up s h));
  }

module _ {S : Type 0} {I : S → Type 0} where
  pub each-Keeps :
      {A : Type 0} (f : A → Act S (Unit {0})) (xs : List A)
      → ((a : A) → Keeps I (f a))
      → Keeps I (each f xs)
  each-Keeps f [] k = pure-Keeps tt
  each-Keeps f (x ∷ xs) k = >>=-Keeps (f x) (λ _. each f xs) (k x) (λ _. each-Keeps f xs k)

  pub when-Keeps : (b : Bool) (act : Act S (Unit {0})) → Keeps I act → Keeps I (when b act)
  when-Keeps true act k = k
  when-Keeps false act k = pure-Keeps tt

pub ruleset keeping = (
  pure-Keeps, fail-Keeps, lift-Keeps, gets-Keeps, writes-Keeps, rescue-Keeps, ensure-Keeps,
  on_runtime_error-Keeps, if-Keeps, >>=-Keeps, each-Keeps, when-Keeps,
)
