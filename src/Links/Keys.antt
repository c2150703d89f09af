-- ===== src/Links/Keys.antt =====
-- Two links have the same key if and only if they join the same two names.
use satgonetem.Base.{
  ◌≡◌, refl, sym, ap, subst, ◌∙◌, ◌↔◌, ◌⊎◌, inl, inr, true, false, [], ◌∷◌, Option, none, some,
  Text, nat_beq_iff, Bool-cases, ok, raise, value_error, Dict, get, pair_eq, arith, ◌==◌, ==_iff,
  text_eq, list_eq, nat_eq,
}
use satgonetem.Emulator.{NodeKind, satellite, ground_station}
use satgonetem.Links.{End, Key, Link, text_leb, frozenset, end_name, build_link_key}

text_leb_total : (s t : Text) → text_leb s t ≡ false → text_leb t s ≡ true
text_leb_total [] t h = ground arith
text_leb_total (c ∷ s) [] h = refl
text_leb_total (c ∷ s) (d ∷ t) h =
    ground (arith, text_leb_total s t, nat_beq_iff c d, nat_beq_iff d c)

text_leb_antisym : (s t : Text) → text_leb s t ≡ true → text_leb t s ≡ true → s ≡ t
text_leb_antisym [] [] h k = refl
text_leb_antisym [] (d ∷ t) h k = ground arith
text_leb_antisym (c ∷ s) [] h k = ground arith
text_leb_antisym (c ∷ s) (d ∷ t) h k =
    ground (arith, text_leb_antisym s t, nat_beq_iff c d, nat_beq_iff d c)

frozenset-cases : (s t : Text) → (frozenset s t ≡ (s, t)) ⊎ (frozenset s t ≡ (t, s))
frozenset-cases s t = elim (Bool-cases (text_leb s t)) [
  | inl y ↦ inl (rw y refl)
  | inr n ↦ inr (rw n refl)
]

frozenset_comm : (s t : Text) → frozenset s t ≡ frozenset t s
frozenset_comm s t = elim (Bool-cases (text_leb s t)) [
  | inl y ↦ elim (Bool-cases (text_leb t s)) [
    | inl z ↦ let same : s ≡ t = text_leb_antisym s t y z in rw same refl
    | inr z ↦ rw (y, z) refl
  ]
  | inr n ↦ rw (n, text_leb_total s t n) refl
]

abbrev SamePair : Text → Text → Text → Text → Type 0
SamePair s t u v = ((s ≡ u) × (t ≡ v)) ⊎ ((s ≡ v) × (t ≡ u))

pairs_same : (s t u v : Text) → Path Key (s, t) (u, v) → (s ≡ u) × (t ≡ v)
pairs_same s t u v e = (ap (λ p. p.0) e, ap (λ p. p.1) e)

frozenset_same : (s t u v : Text) → frozenset s t ≡ frozenset u v → SamePair s t u v
frozenset_same s t u v e = elim (frozenset-cases s t) [
  | inl a ↦ elim (frozenset-cases u v) [
    | inl b ↦ inl (pairs_same s t u v (sym a ∙ e ∙ b))
    | inr b ↦ inr (pairs_same s t v u (sym a ∙ e ∙ b))
  ]
  | inr a ↦ elim (frozenset-cases u v) [
    | inl b ↦ let f : (t ≡ u) × (s ≡ v) = pairs_same t s u v (sym a ∙ e ∙ b) in inr (f.1, f.0)
    | inr b ↦ let f : (t ≡ v) × (s ≡ u) = pairs_same t s v u (sym a ∙ e ∙ b) in inl (f.1, f.0)
  ]
]

same_frozenset : (s t u v : Text) → SamePair s t u v → frozenset s t ≡ frozenset u v
same_frozenset s t u v (inl (e, f)) = rw (e, f) refl
same_frozenset s t u v (inr (e, f)) = rw (e, f) (frozenset_comm v u)

-- Two objects with the same name.
abbrev pub SameEnd : End → End → Type 0
SameEnd a b = (a.kind ≡ b.kind) × (a.uniq_id ≡ b.uniq_id)

end_name-injective :
    (k l : Option NodeKind) (u v name : Text)
    → end_name k u ≡ some name
    → end_name l v ≡ some name
    → (k ≡ l) × (u ≡ v)
end_name-injective none l u v name h i = ground arith
end_name-injective (some k) none u v name h i = ground arith
end_name-injective (some satellite) (some satellite) u v name h i = ground arith
end_name-injective (some satellite) (some ground_station) u v name h i = ground arith
end_name-injective (some ground_station) (some satellite) u v name h i = ground arith
end_name-injective (some ground_station) (some ground_station) u v name h i = ground arith

same_name :
    (a c : End) (s u : Text)
    → SameEnd a c
    → end_name a.kind a.uniq_id ≡ some s
    → end_name c.kind c.uniq_id ≡ some u
    → s ≡ u
same_name a c s u (kinds, ids) h i =
    let names : end_name a.kind a.uniq_id ≡ end_name c.kind c.uniq_id =
      ap (λ n. end_name n a.uniq_id) kinds ∙ ap (λ w. end_name c.kind w) ids in
    let same : some s ≡ some u = sym h ∙ names ∙ i in cc

-- The two names behind a key.
build_link_key-names :
    (a b : End) (k : Key)
    → build_link_key a b ≡ ok k
    → (s : Text) × (t : Text) × (end_name a.kind a.uniq_id ≡ some s)
      × (end_name b.kind b.uniq_id ≡ some t)
      × (k ≡ frozenset s t)
unfolding build_link_key
build_link_key-names a b k h =
    by_names (end_name a.kind a.uniq_id) (end_name b.kind b.uniq_id) refl refl h
  where
    by_names :
        (m n : Option Text)
        → end_name a.kind a.uniq_id ≡ m
        → end_name b.kind b.uniq_id ≡ n
        → elim m [
          | none ↦ raise value_error
          | some s ↦ elim n [ none ↦ raise value_error | some t ↦ ok (frozenset s t) ]
        ]
          ≡ ok k
        → (s : Text) × (t : Text) × (end_name a.kind a.uniq_id ≡ some s)
          × (end_name b.kind b.uniq_id ≡ some t)
          × (k ≡ frozenset s t)
    by_names none n e f h = absurd cc
    by_names (some s) none e f h = absurd cc
    by_names (some s) (some t) e f h = (s, t, e, f, cc)

-- Two pairs of ends that have keys have the same key if and only if they have the same kinds and
-- identifiers, in the same or in the opposite order.
pub build_link_key_same :
    (a b c d : End) (k l : Key)
    → build_link_key a b ≡ ok k
    → build_link_key c d ≡ ok l
    → (k ≡ l) ↔ ((SameEnd a c × SameEnd b d) ⊎ (SameEnd a d × SameEnd b c))
build_link_key_same a b c d k l h i =
    let (s, t, a_s, b_t, k_eq) = build_link_key-names a b k h in
    let (u, v, c_u, d_v, l_eq) = build_link_key-names c d l i in
    (
      λ e. elim (frozenset_same s t u v (sym k_eq ∙ e ∙ l_eq)) [
        | inl (su, tv) ↦ inl (
          end_name-injective _ _ _ _ s a_s (rw su c_u),
          end_name-injective _ _ _ _ t b_t (rw tv d_v),
        )
        | inr (sv, tu) ↦ inr (
          end_name-injective _ _ _ _ s a_s (rw sv d_v),
          end_name-injective _ _ _ _ t b_t (rw tu c_u),
        )
      ],
      λ same. elim same [
        | inl (ac, bd) ↦
            k_eq
            ∙ same_frozenset s t u v
                (inl (same_name a c s u ac a_s c_u, same_name b d t v bd b_t d_v))
            ∙ sym l_eq
        | inr (ad, bc) ↦
            k_eq
            ∙ same_frozenset s t u v
                (inr (same_name a d s v ad a_s d_v, same_name b c t u bc b_t c_u))
            ∙ sym l_eq
      ],
    )

-- The key of a link is that of its two ends.
abbrev pub KeysAgree : Dict Key Link → Type 0
KeysAgree d = (k : Key) (l : Link) → get k d ≡ some l → build_link_key l.source l.target ≡ ok k

pub KeysAgree-cons :
    (k : Key) (l : Link) (d : Dict Key Link)
    → build_link_key l.source l.target ≡ ok k
    → KeysAgree d
    → KeysAgree ((k, l) ∷ d)
KeysAgree-cons k l d named agree j m e = elim (Bool-cases (k == j)) [
  | inl same ↦
      let found : some l ≡ some m = sym (at_head same) ∙ e in
      let same_link : l ≡ m = cc in
      subst (λ (n : Link). build_link_key n.source n.target ≡ ok j) same_link
        (named ∙ ap ok ((==_iff k j).0 same))
  | inr other ↦ agree j m (sym (past_head other) ∙ e)
]
  where
    at_head : (k == j) ≡ true → get j ((k, l) ∷ d) ≡ some l
    at_head h = rw (get, h) refl

    past_head : (k == j) ≡ false → get j ((k, l) ∷ d) ≡ get j d
    past_head h = rw (get, h) refl

pub KeysAgree-empty : KeysAgree []
KeysAgree-empty k l e = absurd cc
