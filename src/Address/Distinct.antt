-- ===== src/Address/Distinct.antt =====
-- `get_ipv4_address`: what an address that it returned tells about the call.
use satgonetem.Base.{
  ℕ, ◌^◌, ◌<◌, ◌≡◌, refl, sym, ap, subst, ◌∙◌, Bool, true, false, not, ltb, Bool-cases, inl, inr,
  ok, ok-injective, raise, value_error, arith, Text, codes, ℤ, pos, negsuc, ◌⊎◌, [], ◌∷◌, ◌==◌,
  ==_iff, text_eq, list_eq, nat_eq, ltb→lt,
}
use satgonetem.Address.{Digits, get_ipv4_address, thirteen_bits, owner_code}
use satgonetem.Address.Allocation.{
  address_text, address_number, address_number-lt, owner_number, IsKind, satellite_kind,
  ground_station_kind, user_terminal_kind, get_ipv4_address_lem,
}
use satgonetem.Address.Summary.{address_text-injective}

-- The arguments that `get_ipv4_address` accepts.
pub data IsAllocatable : ℤ → ℤ → Text → Type 0 where
  allocatable :
      {type : Text} {n m : ℕ}
      → IsKind type
      → n < 2 ^ 13
      → m < 2 ^ 13
      → IsAllocatable (pos n) (pos m) type

thirteen_bits-cases :
    (z : ℤ) → ((n : ℕ) × (z ≡ pos n) × (n < 2 ^ 13)) ⊎ (thirteen_bits z ≡ raise value_error)
thirteen_bits-cases (negsuc n) = inr refl
thirteen_bits-cases (pos n) = elim (Bool-cases (ltb n (2 ^ 13))) [
  | inl small ↦ inl (n, refl, ltb→lt n (2 ^ 13) small)
  | inr big ↦ inr (rw big refl)
]

owner_code-cases : (type : Text) → IsKind type ⊎ (owner_code type ≡ raise value_error)
owner_code-cases type = elim (Bool-cases (type == codes "Satellite")) [
  | inl a ↦ inl (subst IsKind (sym ((==_iff type (codes "Satellite")).0 a)) satellite_kind)
  | inr a ↦ elim (Bool-cases (type == codes "GroundStation")) [
    | inl b ↦
        inl (subst IsKind (sym ((==_iff type (codes "GroundStation")).0 b)) ground_station_kind)
    | inr b ↦ elim (Bool-cases (type == codes "UserTerminal")) [
      | inl c ↦
          inl (subst IsKind (sym ((==_iff type (codes "UserTerminal")).0 c)) user_terminal_kind)
      | inr c ↦ inr (rw (a, b, c) refl)
    ]
  ]
]

owner_code-IsKind : {type : Text} → IsKind type → (ds : Digits) × (owner_code type ≡ ok ds)
owner_code-IsKind satellite_kind = (true ∷ false ∷ [], refl)
owner_code-IsKind ground_station_kind = (false ∷ true ∷ [], refl)
owner_code-IsKind user_terminal_kind = (true ∷ true ∷ [], refl)

-- Whatever its arguments are, `get_ipv4_address` raises a ValueError unless the kind is one of the
-- three and both identifiers are from 0 to 8191.
pub get_ipv4_address_fails :
    (z w : ℤ) (type : Text) (loopback : Bool)
    → IsAllocatable z w type ⊎ (get_ipv4_address z w type loopback ≡ raise value_error)
unfolding get_ipv4_address
get_ipv4_address_fails z w type loopback = elim (owner_code-cases type) [
  | inr bad ↦ inr (rw (owner_code, bad) refl)
  | inl kind ↦ elim (thirteen_bits-cases z) [
    | inr bad ↦
        let owner : (ds : Digits) × (owner_code type ≡ ok ds) = owner_code-IsKind kind in
        inr (rw (owner_code, owner.1, bad) refl)
    | inl (n, e, n_less) ↦ elim (thirteen_bits-cases w) [
      | inr bad ↦
          let owner : (ds : Digits) × (owner_code type ≡ ok ds) = owner_code-IsKind kind in
          let fine : thirteen_bits z ≡ ok n = rw e (ground arith) in
          inr (rw (owner_code, owner.1, fine, bad) refl)
      | inl (m, f, m_less) ↦ inl (rw (e, f) (allocatable kind n_less m_less))
    ]
  ]
]

-- One of the two addresses.
unfoldable pub side : Bool → Text × Text → Text
side true p = p.0
side false p = p.1

-- The bit of an address that tells the ends of a link apart.
unfoldable pub last_bit : Bool → ℕ → ℕ → Bool
last_bit true n m = not (ltb n m)
last_bit false n m = ltb n m

-- What an address that was returned is.
pub record Made (z w : ℤ) (type : Text) (loopback which : Bool) (address : Text) : Type 0 where
  pub node : ℕ
  pub peer : ℕ
  pub node_eq : z ≡ pos node
  pub peer_eq : w ≡ pos peer
  pub kind : IsKind type
  pub node_less : node < 2 ^ 13
  pub peer_less : peer < 2 ^ 13
  pub address_eq :
      address
      ≡ address_text
          (address_number (owner_number type) node loopback peer (last_bit which node peer))

side_pair :
    (number : Bool → ℕ) (which : Bool) (n m : ℕ)
    → side which (address_text (number (not (ltb n m))), address_text (number (ltb n m)))
      ≡ address_text (number (last_bit which n m))
unfolding side last_bit
side_pair number true n m = refl
side_pair number false n m = refl

last_bit-injective : (a b : Bool) (n m : ℕ) → last_bit a n m ≡ last_bit b n m → a ≡ b
unfolding last_bit
last_bit-injective true true n m e = refl
last_bit-injective true false n m e = ground arith
last_bit-injective false true n m e = ground arith
last_bit-injective false false n m e = refl

made :
    {z w : ℤ} {type : Text} (loopback which : Bool) (p : Text × Text)
    → IsAllocatable z w type
    → get_ipv4_address z w type loopback ≡ ok p
    → Made z w type loopback which (side which p)
made loopback which p (allocatable {type = type} {n = n} {m = m} kind n_less m_less) found =
    let number : Bool → ℕ = λ last. address_number (owner_number type) n loopback m last in
    let value : (address_text (number (not (ltb n m))), address_text (number (ltb n m))) ≡ p =
      ok-injective (sym (get_ipv4_address_lem type n m loopback kind n_less m_less) ∙ found) in
    record {
      node = n;
      peer = m;
      node_eq = refl;
      peer_eq = refl;
      kind = kind;
      node_less = n_less;
      peer_less = m_less;
      address_eq = sym (ap (side which) value) ∙ side_pair number which n m;
    }

pub get_ipv4_address-Made :
    (z w : ℤ) (type : Text) (loopback which : Bool) (p : Text × Text)
    → get_ipv4_address z w type loopback ≡ ok p
    → Made z w type loopback which (side which p)
get_ipv4_address-Made z w type loopback which p found =
    elim (get_ipv4_address_fails z w type loopback) [
      | inr bad ↦ absurd cc
      | inl good ↦ made loopback which p good found
    ]

pub owner_number-lt : {type : Text} → IsKind type → owner_number type < 4
unfolding owner_number
owner_number-lt satellite_kind = omega arith
owner_number-lt ground_station_kind = omega arith
owner_number-lt user_terminal_kind = omega arith

pub owner_number-injective :
    {type kind : Text}
    → IsKind type
    → IsKind kind
    → owner_number type ≡ owner_number kind
    → type ≡ kind
unfolding owner_number
owner_number-injective satellite_kind satellite_kind e = refl
owner_number-injective satellite_kind ground_station_kind e = absurd (omega arith)
owner_number-injective satellite_kind user_terminal_kind e = absurd (omega arith)
owner_number-injective ground_station_kind satellite_kind e = absurd (omega arith)
owner_number-injective ground_station_kind ground_station_kind e = refl
owner_number-injective ground_station_kind user_terminal_kind e = absurd (omega arith)
owner_number-injective user_terminal_kind satellite_kind e = absurd (omega arith)
owner_number-injective user_terminal_kind ground_station_kind e = absurd (omega arith)
owner_number-injective user_terminal_kind user_terminal_kind e = refl

address_number-injective :
    (o o' n n' m m' : ℕ) (l l' d d' : Bool)
    → n < 2 ^ 13
    → n' < 2 ^ 13
    → m < 2 ^ 13
    → m' < 2 ^ 13
    → address_number o n l m d ≡ address_number o' n' l' m' d'
    → (o ≡ o') × (n ≡ n') × (m ≡ m') × (l ≡ l') × (d ≡ d')
unfolding address_number
address_number-injective o o' n n' m m' l l' d d' n_less n_less' m_less m_less' e = ground arith

same_fields :
    {z w z' w' : ℤ} {type type' : Text} {loopback loopback' which which' : Bool} {s t : Text}
    (a : Made z w type loopback which s) (b : Made z' w' type' loopback' which' t)
    → s ≡ t
    → (owner_number type ≡ owner_number type')
      × (a.node ≡ b.node)
      × (a.peer ≡ b.peer)
      × (loopback ≡ loopback')
      × (last_bit which a.node a.peer ≡ last_bit which' b.node b.peer)
same_fields {type = type} {type' = type'} {loopback = l} {loopback' = l'} a b same =
    address_number-injective (owner_number type) (owner_number type') a.node b.node a.peer b.peer l
      l' _ _ a.node_less b.node_less a.peer_less b.peer_less
      (address_text-injective _ _
        (address_number-lt _ a.node l a.peer _ (owner_number-lt a.kind) a.node_less a.peer_less)
        (address_number-lt _ b.node l' b.peer _ (owner_number-lt b.kind) b.node_less b.peer_less)
        (sym a.address_eq ∙ same ∙ b.address_eq))

-- If an address of one call of `get_ipv4_address` is an address of another call, then the two calls
-- have the same node, peer, kind and loopback mark, and the addresses are the same one of the two.
pub get_ipv4_address-distinct :
    (z w z' w' : ℤ) (type type' : Text) (loopback loopback' which which' : Bool) (p q : Text × Text)
    → get_ipv4_address z w type loopback ≡ ok p
    → get_ipv4_address z' w' type' loopback' ≡ ok q
    → side which p ≡ side which' q
    → (z ≡ z') × (w ≡ w') × (type ≡ type') × (loopback ≡ loopback') × (which ≡ which')
get_ipv4_address-distinct z w z' w' type type' loopback loopback' which which' p q found found'
      same =
    let a : Made z w type loopback which (side which p) =
      get_ipv4_address-Made z w type loopback which p found in
    let b : Made z' w' type' loopback' which' (side which' q) =
      get_ipv4_address-Made z' w' type' loopback' which' q found' in
    let (owners, nodes, peers, loopbacks, bits) = same_fields a b same in
    (
      a.node_eq ∙ ap pos nodes ∙ sym b.node_eq,
      a.peer_eq ∙ ap pos peers ∙ sym b.peer_eq,
      owner_number-injective a.kind b.kind owners,
      loopbacks,
      last_bit-injective which which' b.node b.peer (
          subst (λ (x : ℕ × ℕ). last_bit which x.0 x.1 ≡ last_bit which' b.node b.peer)
            (ap (λ n. (n, a.peer)) nodes ∙ ap (λ m. (b.node, m)) peers) bits),
    )
