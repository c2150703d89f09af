-- ===== src/Hil/Emptied.antt =====
-- The books after `teardown_all`, on any machine (launchers/hil_manager.py).
use satgonetem.Base.{
  ℕ, ◌≡◌, refl, ◌∙◌, subst, false, Option, none, some, List, [], ◌∷◌, Text, text_eq, ==_refl,
  Result, Dict, pop, keys, mem, AllDistinct, arith,
}
use satgonetem.Acts.{pure, writes, each, ◌>>=◌, ◌>>◌}
use satgonetem.Acts.Keeps.{Keeps, keeping, pure-Keeps}
use satgonetem.Acts.Ends.{Ends, IsOk, pure-Ends, writes-Ends, rescue-Ends, >>=-Ends, gets-Ends}
use satgonetem.Hil.{
  Hil, Machine, Request, with_machine, ask, delete_found, delete_bridge, without_bridge,
  teardown_bridge, teardown_all,
}
use satgonetem.Hil.Books.{Books, Paired, Books-without_bridge}

abbrev pub Emptied : {K : Type 0} → Hil K → Type 0
Emptied h = (h.hil_bridges ≡ []) × (h.hil_veths ≡ [])

module _ {K : Type 0} (host : Machine K) (hardware : Dict Text Text) where
  -- The books are in order, and these ground stations are left.
  abbrev Left : List Text → Hil K → Type 0
  Left names h = Books hardware h × (keys h.hil_bridges ≡ names)

  same-Left :
      (names : List Text) (h : Hil K) (r : K × Result (List ℕ))
      → Left names h
      → Left names (with_machine h r).0
  same-Left names h (k, r) (b, e) =
      (record { hardware_eq = b.hardware_eq; paired = b.paired; distinct = b.distinct }, e)

  ask-Left : (names : List Text) (q : Request) → Keeps (Left names) (ask host q)
  unfolding ask
  ask-Left names q = record { holds = λ h b. same-Left names h (host q h.machine) b }

  delete_found-Left : (names : List Text) (is : List ℕ) → Keeps (Left names) (delete_found host is)
  delete_found-Left names [] = pure-Keeps []
  delete_found-Left names (i ∷ is) = ask-Left names (Request.delete_link i)

  delete_bridge-Left :
      (names : List Text) (o : Option Text) → Ends (Left names) (delete_bridge host o) (Left names)
  delete_bridge-Left names none = pure-Ends (Left names) (Left names) tt (λ h b. b)
  delete_bridge-Left names (some []) = pure-Ends (Left names) (Left names) tt (λ h b. b)
  delete_bridge-Left names (some (c ∷ s)) =
      rescue-Ends (Left names)
        (ask host (Request.get_link (c ∷ s)) >>= delete_found host >> pure tt) tt
        (search (keeping, ask-Left, delete_found-Left) depth 10)

  keys-pop_absent :
      (g : Text) (d : Dict Text Text) → mem g (keys d) ≡ false → keys (pop g d) ≡ keys d
  keys-pop_absent g [] h = refl
  keys-pop_absent g ((j, w) ∷ d) h = ground (arith, keys-pop_absent g d)

  keys-pop_first :
      (g : Text) (names : List Text) (d : Dict Text Text)
      → AllDistinct (keys d)
      → keys d ≡ g ∷ names
      → keys (pop g d) ≡ names
  keys-pop_first g names [] d e = cc
  keys-pop_first g names ((j, w) ∷ d) (fresh, _) e =
      let same : j ≡ g = cc in
      let rest : keys d ≡ names = cc in
      let absent : mem g (keys d) ≡ false = subst (λ x. mem x (keys d) ≡ false) same fresh in
      rw (same, ==_refl g) (keys-pop_absent g d absent ∙ rest)

  teardown_bridge-Left :
      (g : Text) (names : List Text) → Ends (Left (g ∷ names)) (teardown_bridge host g) (Left names)
  unfolding teardown_bridge
  teardown_bridge-Left g names = gets-Ends (Left (g ∷ names)) (Left names) _ _ (λ br_name.
      >>=-Ends _ (Left names) (Left names) (writes (without_bridge g) tt)
        (λ _. delete_bridge host br_name)
        (writes-Ends _ (Left names) (without_bridge g) tt (λ h p.
          let b : Books hardware h = p.0.0 in
          let e : keys h.hil_bridges ≡ g ∷ names = p.0.1 in
          (
            Books-without_bridge host hardware g h b,
            keys-pop_first g names h.hil_bridges b.distinct e,
          )))
        (λ _. delete_bridge-Left names br_name))

  teardown_each-Left :
      (names : List Text) → Ends (Left names) (each (teardown_bridge host) names) (Left [])
  teardown_each-Left [] = pure-Ends (Left []) (Left []) tt (λ h b. b)
  teardown_each-Left (g ∷ names) =
      >>=-Ends (Left (g ∷ names)) (Left names) (Left []) (teardown_bridge host g)
        (λ _. each (teardown_bridge host) names) (teardown_bridge-Left g names)
        (λ _. teardown_each-Left names)

  Left-Emptied :
      (h : Hil K) (bs vs : Dict Text Text)
      → Paired hardware bs vs
      → keys bs ≡ []
      → (bs ≡ []) × (vs ≡ [])
  Left-Emptied h [] [] p e = (refl, refl)
  Left-Emptied h [] (_ ∷ _) p e = absurd p
  Left-Emptied h (_ ∷ _) vs p e = cc

  -- Whatever the machine answers, nothing is raised and nothing is left in the books.
  pub teardown_all-Emptied :
      (h : Hil K)
      → Books hardware h
      → IsOk (teardown_all host h).1 × Emptied (teardown_all host h).0
  unfolding teardown_all ◌>>=◌
  teardown_all-Emptied h b =
      let (done, left) = (teardown_each-Left (keys h.hil_bridges)).ends h (b, refl) in
      (done, Left-Emptied h _ _ left.0.paired left.1)
