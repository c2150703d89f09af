-- ===== src/Acts/Leads.antt =====
-- What holds after an act, where it returns and where it raises. A rule for each way to build one.
use satgonetem.Base.{Bool, true, false, Result, ok, raise, Exception}
use satgonetem.Acts.{
  Act, pure, fail, gets, writes, rescue, ensure, handle, after_last, continue, ◌>>=◌, when,
}
use satgonetem.Acts.Keeps.{Keeps}

abbrev pub Post : {S A : Type 0} → (A → S → Type 0) → (S → Type 0) → S × Result A → Type 0
Post Q E (s, ok a) = Q a s
Post Q E (s, raise x) = E s

-- From `P` the act returns with `Q`, or raises with `E`.
pub record Leads {S A : Type 0} (P : S → Type 0) (act : Act S A) (Q : A → S → Type 0)
    (E : S → Type 0) : Type 0 where
  pub leads : (s : S) → P s → Post Q E (act s)

abbrev pub Anything : {S : Type 0} → S → Type 0
Anything s = Unit

module _ {S A : Type 0} where
  kept : (I : S → Type 0) (r : S × Result A) → I r.0 → Post (λ _. I) I r
  kept I (s, ok a) h = h
  kept I (s, raise x) h = h

  pub Leads_of_Keeps : (I : S → Type 0) (act : Act S A) → Keeps I act → Leads I act (λ _. I) I
  Leads_of_Keeps I act k = record { leads = λ s h. kept I (act s) (k.holds s h) }

  weaker :
      (Q R : A → S → Type 0) (E F : S → Type 0) (r : S × Result A)
      → ((a : A) (s : S) → Q a s → R a s)
      → ((s : S) → E s → F s)
      → Post Q E r
      → Post R F r
  weaker Q R E F (s, ok a) q e h = q a s h
  weaker Q R E F (s, raise x) q e h = e s h

  pub Leads-weaker :
      (P : S → Type 0) (Q R : A → S → Type 0) (E F : S → Type 0) (act : Act S A)
      → ((a : A) (s : S) → Q a s → R a s)
      → ((s : S) → E s → F s)
      → Leads P act Q E
      → Leads P act R F
  Leads-weaker P Q R E F act q e l = record {
    leads = λ s h. weaker Q R E F (act s) q e (l.leads s h);
  }

  pub pure-Leads :
      (P : S → Type 0) (Q : A → S → Type 0) (E : S → Type 0) (a : A)
      → ((s : S) → P s → Q a s)
      → Leads P (pure a) Q E
  unfolding pure
  pure-Leads P Q E a k = record { leads = k }

  pub fail-Leads : (Q : A → S → Type 0) (E : S → Type 0) (x : Exception) → Leads E (fail x) Q E
  unfolding fail
  fail-Leads Q E x = record { leads = λ s h. h }

  pub gets-Leads :
      (P : S → Type 0) (Q : A → S → Type 0) (E : S → Type 0) (f : S → A)
      → ((s : S) → P s → Q (f s) s)
      → Leads P (gets f) Q E
  unfolding gets
  gets-Leads P Q E f k = record { leads = k }

  pub writes-Leads :
      (P : S → Type 0) (Q : A → S → Type 0) (E : S → Type 0) (f : S → S) (a : A)
      → ((s : S) → P s → Q a (f s))
      → Leads P (writes f a) Q E
  unfolding writes
  writes-Leads P Q E f a k = record { leads = k }

  handled :
      (Q : A → S → Type 0) (E F : S → Type 0) (f : Exception → Act S A) (r : S × Result A)
      → Post Q E r
      → ((x : Exception) → Leads E (f x) Q F)
      → Post Q F (handle f r)
  handled Q E F f (s, ok a) h k = h
  handled Q E F f (s, raise x) h k = (k x).leads s h

  pub rescue-Leads :
      (P : S → Type 0) (Q : A → S → Type 0) (E F : S → Type 0) (act : Act S A)
      (f : Exception → Act S A)
      → Leads P act Q E
      → ((x : Exception) → Leads E (f x) Q F)
      → Leads P (rescue act f) Q F
  unfolding rescue
  rescue-Leads P Q E F act f l k = record { leads = λ s h. handled Q E F f (act s) (l.leads s h) k }

  pub ensure-Leads :
      (P : S → Type 0) (Q R : A → S → Type 0) (E F : S → Type 0) (act : Act S A)
      (last : Act S (Unit {0}))
      → Leads P act Q E
      → ((a : A) → Leads (Q a) last (λ _. R a) F)
      → Leads E last (λ _. F) F
      → Leads P (ensure act last) R F
  unfolding ensure
  ensure-Leads P Q R E F act last l k m = record { leads = λ s h. at_last (act s) (l.leads s h) }
    where
      returned :
          (a : A) (r : S × Result (Unit {0})) → Post (λ _. R a) F r → Post R F (after_last (ok a) r)
      returned a (s, ok _) h = h
      returned a (s, raise x) h = h

      raised :
          (x : Exception) (r : S × Result (Unit {0}))
          → Post (λ _. F) F r
          → Post R F (after_last (raise x) r)
      raised x (s, ok _) h = h
      raised x (s, raise y) h = h

      at_last : (r : S × Result A) → Post Q E r → Post R F (after_last r.1 (last r.0))
      at_last (s, ok a) h = returned a (last s) ((k a).leads s h)
      at_last (s, raise x) h = raised x (last s) (m.leads s h)

module _ {S A B : Type 0} where
  continued :
      (Q : A → S → Type 0) (R : B → S → Type 0) (E : S → Type 0) (f : A → Act S B)
      (r : S × Result A)
      → Post Q E r
      → ((a : A) → Leads (Q a) (f a) R E)
      → Post R E (continue f r)
  continued Q R E f (s, ok a) h k = (k a).leads s h
  continued Q R E f (s, raise x) h k = h

  pub >>=-Leads :
      (P : S → Type 0) (Q : A → S → Type 0) (R : B → S → Type 0) (E : S → Type 0) (act : Act S A)
      (f : A → Act S B)
      → Leads P act Q E
      → ((a : A) → Leads (Q a) (f a) R E)
      → Leads P (act >>= f) R E
  unfolding ◌>>=◌
  >>=-Leads P Q R E act f l k = record { leads = λ s h. continued Q R E f (act s) (l.leads s h) k }

module _ {S A : Type 0} where
  anything : (r : S × Result A) → Post (λ _. Anything) Anything r
  anything (s, ok a) = tt
  anything (s, raise x) = tt

  pub Leads_anywhere : (P : S → Type 0) (act : Act S A) → Leads P act (λ _. Anything) Anything
  Leads_anywhere P act = record { leads = λ s h. anything (act s) }

pub when-Leads :
    {S : Type 0} (P Q E : S → Type 0) (b : Bool) (act : Act S (Unit {0}))
    → Leads P act (λ _. Q) E
    → ((s : S) → P s → Q s)
    → Leads P (when b act) (λ _. Q) E
when-Leads P Q E true act l k = l
when-Leads P Q E false act l k = pure-Leads P (λ _. Q) E tt k
