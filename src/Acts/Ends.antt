-- ===== src/Acts/Ends.antt =====
-- What an act comes to: it returns, and from what holds before it follows what holds after it. A
-- rule for each way to build an act.
use satgonetem.Base.{◌≡◌, refl, Bool, true, false, List, [], ◌∷◌, Result, ok, raise}
use satgonetem.Acts.{
  Act, pure, gets, writes, rescue, ensure, handle, after_last, continue, ◌>>=◌, each, when,
}
use satgonetem.Acts.Keeps.{Keeps}

abbrev pub IsOk : {A : Type 0} → Result A → Type 0
IsOk {A} r = (a : A) × (r ≡ ok a)

pub record Ends {S A : Type 0} (P : S → Type 0) (act : Act S A) (Q : S → Type 0) : Type 0 where
  pub ends : (s : S) → P s → IsOk (act s).1 × Q (act s).0

module _ {S A : Type 0} where
  pub pure-Ends : (P Q : S → Type 0) (a : A) → ((s : S) → P s → Q s) → Ends P (pure a) Q
  unfolding pure
  pure-Ends P Q a k = record { ends = λ s h. ((a, refl), k s h) }

  pub writes-Ends :
      (P Q : S → Type 0) (f : S → S) (a : A) → ((s : S) → P s → Q (f s)) → Ends P (writes f a) Q
  unfolding writes
  writes-Ends P Q f a k = record { ends = λ s h. ((a, refl), k s h) }

  handled :
      (P : S → Type 0) (a : A) (r : S × Result A)
      → P r.0
      → IsOk (handle (λ _. pure a) r).1 × P (handle (λ _. pure a) r).0
  unfolding pure
  handled P a (s, ok b) h = ((b, refl), h)
  handled P a (s, raise x) h = ((a, refl), h)

  -- An act whose exceptions are caught.
  pub rescue-Ends :
      (P : S → Type 0) (act : Act S A) (a : A) → Keeps P act → Ends P (rescue act (λ _. pure a)) P
  unfolding rescue
  rescue-Ends P act a k = record { ends = λ s h. handled P a (act s) (k.holds s h) }

  pub ensure-Ends :
      (P Q R : S → Type 0) (act : Act S A) (last : Act S (Unit {0}))
      → Ends P act Q
      → Ends Q last R
      → Ends P (ensure act last) R
  unfolding ensure
  ensure-Ends P Q R act last k l = record {
    ends = λ s h.
        let (done, q) = k.ends s h in
        let (done_last, r) = l.ends (act s).0 q in both (act s).1 (last (act s).0) done done_last r;
  }
    where
      both :
          (r : Result A) (l : S × Result (Unit {0}))
          → IsOk r
          → IsOk l.1
          → R l.0
          → IsOk (after_last r l).1 × R (after_last r l).0
      both r (s, ok u) d e q = (d, q)
      both r (s, raise x) d (u, e) q = cc

module _ {S A B : Type 0} where
  continued :
      (Q R : S → Type 0) (f : A → Act S B) (r : S × Result A)
      → ((a : A) → Ends Q (f a) R)
      → IsOk r.1
      → Q r.0
      → IsOk (continue f r).1 × R (continue f r).0
  continued Q R f (s, ok a) k d q = (k a).ends s q
  continued Q R f (s, raise x) k (a, e) q = cc

  pub >>=-Ends :
      (P Q R : S → Type 0) (act : Act S A) (f : A → Act S B)
      → Ends P act Q
      → ((a : A) → Ends Q (f a) R)
      → Ends P (act >>= f) R
  unfolding ◌>>=◌
  >>=-Ends P Q R act f k l = record {
    ends = λ s h. let (done, q) = k.ends s h in continued Q R f (act s) l done q;
  }

  -- What is read of the state is known in what follows.
  pub gets-Ends :
      (P R : S → Type 0) (f : S → A) (g : A → Act S B)
      → ((a : A) → Ends (λ s. P s × (f s ≡ a)) (g a) R)
      → Ends P (gets f >>= g) R
  unfolding ◌>>=◌ gets
  gets-Ends P R f g k = record { ends = λ s h. (k (f s)).ends s (h, refl) }

module _ {S : Type 0} where
  pub when-Ends :
      (P Q : S → Type 0) (b : Bool) (act : Act S (Unit {0}))
      → Ends P act Q
      → (b ≡ false → (s : S) → P s → Q s)
      → Ends P (when b act) Q
  when-Ends P Q true act k l = k
  when-Ends P Q false act k l = pure-Ends P Q tt (l refl)

  pub each-Ends :
      {A : Type 0} (P : S → Type 0) (f : A → Act S (Unit {0})) (xs : List A)
      → ((a : A) → Ends P (f a) P)
      → Ends P (each f xs) P
  each-Ends P f [] k = pure-Ends P P tt (λ s h. h)
  each-Ends P f (x ∷ xs) k = >>=-Ends P P P (f x) (λ _. each f xs) (k x) (λ _. each-Ends P f xs k)
