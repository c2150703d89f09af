-- ===== src/Address/Networks.antt =====
-- The summary at prefix length 15 that the static routing takes of addresses.
use satgonetem.Base.{ℕ, ◌+◌, ◌*◌, ◌^◌, ◌<◌, ◌≡◌, ◌↔◌, sym, ap, ◌∙◌, Bool, Text, ℤ, pos, ok, arith}
use satgonetem.Address.{get_ipv4_address, summarize_ipv4_address}
use satgonetem.Address.Allocation.{
  address_text, address_number, owner_number, digit_value-lt, address_number-lt,
}
use satgonetem.Address.Summary.{address_text-injective, summarize_ipv4_address_lem, network}
use satgonetem.Address.Distinct.{
  Made, get_ipv4_address-Made, owner_number-lt, owner_number-injective, side,
}

-- The number of the network of a node.
node_network : ℕ → ℕ → ℕ
node_network owner node = owner * 2 ^ 30 + node * 2 ^ 17

network-address_number :
    (owner node : ℕ) (loopback : Bool) (peer : ℕ) (last : Bool)
    → peer < 2 ^ 13
    → network 15 (address_number owner node loopback peer last) ≡ node_network owner node
unfolding network address_number node_network
network-address_number owner node loopback peer last less =
    omega (arith, digit_value-lt loopback, digit_value-lt last)

node_network-lt : (owner node : ℕ) → owner < 4 → node < 2 ^ 13 → node_network owner node < 2 ^ 32
unfolding node_network
node_network-lt owner node o_less n_less = omega arith

summarize-Made :
    {z w : ℤ} {type : Text} {loopback which : Bool} {s : Text} (a : Made z w type loopback which s)
    → summarize_ipv4_address s 15 ≡ ok (address_text (node_network (owner_number type) a.node))
summarize-Made {type = type} {loopback = loopback} a =
    ap (λ t. summarize_ipv4_address t 15) a.address_eq
    ∙ summarize_ipv4_address_lem _ 15
        (address_number-lt (owner_number type) a.node loopback a.peer _ (owner_number-lt a.kind)
          a.node_less a.peer_less)
        (omega arith)
    ∙ ap (λ n. ok (address_text n))
        (network-address_number (owner_number type) a.node loopback a.peer _ a.peer_less)

node_network-injective :
    (o o' n n' : ℕ)
    → n < 2 ^ 13
    → n' < 2 ^ 13
    → node_network o n ≡ node_network o' n'
    → (o ≡ o') × (n ≡ n')
unfolding node_network
node_network-injective o o' n n' less less' e = omega arith

summaries_same :
    {z w z' w' : ℤ} {type type' : Text} {loopback loopback' which which' : Bool} {s t : Text}
    (a : Made z w type loopback which s) (b : Made z' w' type' loopback' which' t)
    → summarize_ipv4_address s 15 ≡ summarize_ipv4_address t 15
    → (z ≡ z') × (type ≡ type')
summaries_same {type = type} {type' = type'} a b e =
    let texts : ok (address_text (node_network (owner_number type) a.node))
        ≡ ok (address_text (node_network (owner_number type') b.node)) =
      sym (summarize-Made a) ∙ e ∙ summarize-Made b in
    let (owners, nodes) =
      node_network-injective (owner_number type) (owner_number type') a.node b.node a.node_less
        b.node_less
        (address_text-injective _ _ (node_network-lt _ a.node (owner_number-lt a.kind) a.node_less)
          (node_network-lt _ b.node (owner_number-lt b.kind) b.node_less) cc) in
    (a.node_eq ∙ ap pos nodes ∙ sym b.node_eq, owner_number-injective a.kind b.kind owners)

same_summaries :
    {z w w' : ℤ} {type : Text} {loopback loopback' which which' : Bool} {s t : Text}
    (a : Made z w type loopback which s) (b : Made z w' type loopback' which' t)
    → summarize_ipv4_address s 15 ≡ summarize_ipv4_address t 15
same_summaries {type = type} a b =
    let nodes : pos a.node ≡ pos b.node = sym a.node_eq ∙ b.node_eq in
    let same : a.node ≡ b.node = cc in
    summarize-Made a
    ∙ ap (λ n. ok (address_text (node_network (owner_number type) n))) same
    ∙ sym (summarize-Made b)

-- The summaries at prefix length 15 of two addresses that `get_ipv4_address` returned are the same
-- if and only if the addresses were made for the same node and the same kind of node.
pub summarize_ipv4_address-get_ipv4_address :
    (z w z' w' : ℤ) (type type' : Text) (loopback loopback' which which' : Bool) (p q : Text × Text)
    → get_ipv4_address z w type loopback ≡ ok p
    → get_ipv4_address z' w' type' loopback' ≡ ok q
    → (summarize_ipv4_address (side which p) 15 ≡ summarize_ipv4_address (side which' q) 15)
      ↔ ((z ≡ z') × (type ≡ type'))
summarize_ipv4_address-get_ipv4_address z w z' w' type type' loopback loopback' which which' p q
      found found' =
    let a : Made z w type loopback which (side which p) =
      get_ipv4_address-Made z w type loopback which p found in
    let b : Made z' w' type' loopback' which' (side which' q) =
      get_ipv4_address-Made z' w' type' loopback' which' q found' in
    (
      summaries_same a b,
      λ e.
          let b' : Made z w' type loopback' which' (side which' q) = rw (e.0, e.1) b in
          same_summaries a b',
    )
