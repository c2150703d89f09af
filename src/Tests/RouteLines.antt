-- ===== src/Tests/RouteLines.antt =====
-- The installation of changed lines on a node with routes (routing/srmpls_daemon.py).
use satgonetem.Base.{
  ℕ, ◌≡◌, ◌≢◌, ◌⊎◌, inl, inr, refl, sym, ◌∙◌, Bool, true, false, Bool-cases, some, List, [], ◌∷◌,
  ◌++◌, Text, codes, mem, Dict, get, put, get-put, get-put_self, split, arith, text_eq, nat_eq,
  list_eq, if◌then◌else◌, ◌==◌,
}
use satgonetem.SegmentRouting.Install.{Lines, Batches, lines_at, install_changed}
use satgonetem.SegmentRouting.Install.Incremental.{
  Tables, AllInForce, AllApart, AllSucceed, run, batch, install_changed-AllInForce,
}

-- The tables of a node with the device eth2: a line is `ip route replace`, the prefix, and so on to
-- the device, which is the last word. It replaces the line of its prefix, if the device is there.
abbrev RouteTable : Type 0
RouteTable = Dict Text Text

abbrev fourth : List Text → Text
fourth (a ∷ b ∷ c ∷ d ∷ rest) = d
fourth words = []

abbrev last_word : List Text → Text
last_word [] = []
last_word (w ∷ []) = w
last_word (w ∷ v ∷ words) = last_word (v ∷ words)

unfoldable prefix_of : Text → Text
prefix_of l = fourth (split b' ' l)

unfoldable uses_eth2 : Text → Bool
uses_eth2 l = last_word (split b' ' l) == codes "eth2"

abbrev replaced : RouteTable → Text → RouteTable × Bool
replaced s l = if uses_eth2 l then (put (prefix_of l) l s, true) else (s, false)

abbrev IsRoute : RouteTable → Text → Type 0
IsRoute s l = get (prefix_of l) s ≡ some l

replaced-here : (s : RouteTable) (l : Text) → (replaced s l).1 ≡ true → IsRoute (replaced s l).0 l
replaced-here s l works = elim (Bool-cases (uses_eth2 l)) [
  | inl y ↦ rw y (get-put_self (prefix_of l) l s)
  | inr n ↦ absurd (let e : false ≡ true = sym (rw n refl) ∙ works in cc)
]

replaced-apart :
    (s : RouteTable) (l other : Text)
    → (prefix_of l == prefix_of other) ≡ false
    → IsRoute s other
    → IsRoute (replaced s l).0 other
replaced-apart s l other apart before = elim (Bool-cases (uses_eth2 l)) [
  | inl y ↦ rw y (ground (arith, get-put (prefix_of l) (prefix_of other) l s))
  | inr n ↦ rw n before
]

abbrev route_tables : Tables
route_tables = record {
  State = RouteTable;
  exec = replaced;
  InForce = IsRoute;
  Apart = λ a b. (prefix_of a == prefix_of b) ≡ false;
  exec_here = replaced-here;
  exec_apart = replaced-apart;
}

abbrev kept_route : Text
kept_route = codes "ip route replace 10.0.0.1/32 via 172.0.0.1 dev eth2"

abbrev moved_route : Text
moved_route = codes "ip route replace 10.0.0.2/32 via 172.0.0.5 dev eth2"

abbrev before_move : Text
before_move = codes "ip route replace 10.0.0.2/32 via 172.0.0.1 dev eth2"

abbrev old_lines : Lines
old_lines = (1, kept_route ∷ before_move ∷ []) ∷ []

abbrev new_lines : Lines
new_lines = (1, kept_route ∷ moved_route ∷ []) ∷ []

abbrev installed_routes : RouteTable
installed_routes = (codes "10.0.0.1/32", kept_route) ∷ (codes "10.0.0.2/32", before_move) ∷ []

abbrev sent_move : Batches
sent_move = (1, moved_route ∷ []) ∷ []

move_sent :
    install_changed (λ id lines. true) 1 (kept_route ∷ moved_route ∷ []) (old_lines, [])
    ≡ (new_lines, sent_move)
unfolding install_changed
move_sent = refl

one_or_other : (a b l : Text) → mem l (a ∷ b ∷ []) ≡ true → (l ≡ a) ⊎ (l ≡ b)
one_or_other a b l h = elim (Bool-cases (a == l)) [
  | inl y ↦ inl (sym ((text_eq.beq_iff a l).0 y))
  | inr n ↦ inr (sym ((text_eq.beq_iff b l).0 (ground arith)))
]

other_prefixes :
    ((prefix_of kept_route == prefix_of moved_route) ≡ false)
    × ((prefix_of moved_route == prefix_of kept_route) ≡ false)
unfolding prefix_of split
other_prefixes = (refl, refl)

new_lines-AllApart : AllApart route_tables (kept_route ∷ moved_route ∷ [])
new_lines-AllApart a b m n ne = elim (one_or_other kept_route moved_route a m) [
  | inl x ↦ elim (one_or_other kept_route moved_route b n) [
    | inl y ↦ absurd (ne (x ∙ sym y))
    | inr y ↦ rw (x, y) other_prefixes.0
  ]
  | inr x ↦ elim (one_or_other kept_route moved_route b n) [
    | inl y ↦ rw (x, y) other_prefixes.1
    | inr y ↦ absurd (ne (x ∙ sym y))
  ]
]

installed_both : IsRoute installed_routes kept_route × IsRoute installed_routes before_move
unfolding prefix_of split
installed_both = (refl, refl)

installed_routes-AllInForce :
    AllInForce route_tables installed_routes (kept_route ∷ before_move ∷ [])
installed_routes-AllInForce l m = elim (one_or_other kept_route before_move l m) [
  | inl x ↦ rw x installed_both.0
  | inr y ↦ rw y installed_both.1
]

move_succeeds : AllSucceed route_tables installed_routes (moved_route ∷ [])
unfolding uses_eth2 split
move_succeeds = (refl, tt)

install_changed-AllInForce_example :
    (ran : List Text) × (sent_move ≡ [] ++ batch 1 ran)
    × AllInForce route_tables
        (run route_tables installed_routes ran)
        (kept_route ∷ moved_route ∷ [])
    × AllInForce route_tables (run route_tables installed_routes ran) (lines_at 1 new_lines)
    × ((other : ℕ) → other ≢ 1 → lines_at other new_lines ≡ lines_at other old_lines)
install_changed-AllInForce_example =
    install_changed-AllInForce route_tables (λ id lines. true) 1 (kept_route ∷ moved_route ∷ [])
      old_lines new_lines [] sent_move installed_routes new_lines-AllApart
      installed_routes-AllInForce move_succeeds (λ lines. refl) move_sent
