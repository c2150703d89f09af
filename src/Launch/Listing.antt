-- ===== src/Launch/Listing.antt =====
-- The containers of one project among those of all projects (launchers/gonetem_launcher.py).
use satgonetem.Base.{
  ℕ, ◌≡◌, refl, sym, ap, ◌∙◌, Bool, true, false, not, ◌&&◌, some, List, [], ◌∷◌, ◌++◌, map, filter,
  Text, codes, is_prefix, left_strip, right_strip, leb, nat_beq, nat_beq_iff, if◌then◌else◌, ◌==◌,
  text_eq, nat_eq, list_beq, arith,
}
use satgonetem.Launch.Containers.{
  is_line_break, lines_from, split_once, belongs, container_of_line, parse_project_containers,
  splitlines,
}

-- Printable ASCII characters, without the space.
abbrev pub is_graphic : ℕ → Bool
is_graphic c = leb 33 c && leb c 126

abbrev pub all_graphic : Text → Bool
all_graphic [] = true
all_graphic (c ∷ s) = is_graphic c && all_graphic s

abbrev pub free_of_dots : Text → Bool
free_of_dots [] = true
free_of_dots (c ∷ s) = not (nat_beq c b'.') && free_of_dots s

abbrev pub is_filled : Text → Bool
is_filled [] = false
is_filled (c ∷ s) = true

-- A container of GoNetEm: its identifier, its project and its node.
pub record Container : Type 0 where
  pub container_id : Text
  pub project : Text
  pub node : Text

abbrev pub is_proper : Container → Bool
is_proper c =
    is_filled c.container_id
    && all_graphic c.container_id
    && all_graphic c.project
    && free_of_dots c.project
    && all_graphic c.node

abbrev pub all_proper : List Container → Bool
all_proper [] = true
all_proper (c ∷ cs) = is_proper c && all_proper cs

abbrev pub container_name : Container → Text
container_name c = codes "ntm" ++ (c.project ++ b'.' ∷ c.node)

-- What `docker ps --format '{{.ID}}\t{{.Names}}'` prints.
abbrev pub listing : List Container → Text
listing [] = []
listing (c ∷ cs) = c.container_id ++ 9 ∷ (container_name c ++ 10 ∷ listing cs)

append_assoc : (s t u : Text) → (s ++ t) ++ u ≡ s ++ (t ++ u)
append_assoc [] t u = refl
append_assoc (c ∷ s) t u = ap (λ v. c ∷ v) (append_assoc s t u)

-- A line in which nothing breaks it.
abbrev unbroken : Text → Bool
unbroken [] = true
unbroken (c ∷ s) = not (is_line_break c) && unbroken s

lines_from-append :
    (w s : Text) → unbroken w ≡ true → lines_from false (w ++ 10 ∷ s) ≡ w ∷ lines_from false s
unfolding lines_from
lines_from-append [] s h = refl
lines_from-append (c ∷ w) s h =
    let plain : nat_beq c 13 ≡ false = ground arith in
    let rest : is_line_break c ≡ false = ground arith in
    rw (plain, rest, lines_from-append w s (ground arith)) refl

unbroken-append : (s t : Text) → unbroken (s ++ t) ≡ (unbroken s && unbroken t)
unbroken-append [] t = refl
unbroken-append (c ∷ s) t = ground (arith, unbroken-append s t)

unbroken_of_graphic : (s : Text) → all_graphic s ≡ true → unbroken s ≡ true
unbroken_of_graphic [] h = refl
unbroken_of_graphic (c ∷ s) h = ground (arith, unbroken_of_graphic s)

right_strip_graphic : (c : ℕ) (s : Text) → all_graphic (c ∷ s) ≡ true → right_strip (c ∷ s) ≡ c ∷ s
unfolding right_strip
right_strip_graphic c [] h = ground arith
right_strip_graphic c (d ∷ s) h =
    let tail : right_strip (d ∷ s) ≡ d ∷ s = right_strip_graphic d s (ground arith) in rw tail refl

right_strip-append :
    (u : Text) (c : ℕ) (s : Text)
    → all_graphic (c ∷ s) ≡ true
    → right_strip (u ++ c ∷ s) ≡ u ++ c ∷ s
unfolding right_strip
right_strip-append [] c s h = right_strip_graphic c s h
right_strip-append (d ∷ []) c s h = rw (right_strip_graphic c s h) refl
right_strip-append (d ∷ e ∷ u) c s h =
    let tail : right_strip (e ∷ (u ++ c ∷ s)) ≡ e ∷ (u ++ c ∷ s) =
      right_strip-append (e ∷ u) c s h in
    rw tail refl

split_once-append : (w s : Text) → all_graphic w ≡ true → split_once 9 (w ++ 9 ∷ s) ≡ some (w, s)
unfolding split_once
split_once-append [] s h = refl
split_once-append (c ∷ w) s h = ground (arith, split_once-append w s)

is_prefix-dots :
    (p q node : Text)
    → free_of_dots p ≡ true
    → free_of_dots q ≡ true
    → is_prefix (q ++ b'.' ∷ []) (p ++ b'.' ∷ node) ≡ (p == q)
is_prefix-dots [] [] node hp hq = refl
is_prefix-dots [] (d ∷ q) node hp hq = ground arith
is_prefix-dots (c ∷ p) [] node hp hq = ground arith
is_prefix-dots (c ∷ p) (d ∷ q) node hp hq =
    ground (arith, nat_beq_iff c d, nat_beq_iff d c, is_prefix-dots p q node)

list_beq-dots :
    (p q node : Text) → free_of_dots q ≡ true → list_beq nat_beq (p ++ b'.' ∷ node) q ≡ false
list_beq-dots [] [] node hq = refl
list_beq-dots [] (d ∷ q) node hq = ground arith
list_beq-dots (c ∷ p) [] node hq = refl
list_beq-dots (c ∷ p) (d ∷ q) node hq = ground (arith, list_beq-dots p q node)

-- The name of a container shows its project, though one project may begin like another.
belongs_lem :
    (c : Container) (q : Text)
    → free_of_dots c.project ≡ true
    → free_of_dots q ≡ true
    → belongs (codes "ntm" ++ q) (container_name c) ≡ (c.project == q)
belongs_lem c q hp hq =
    rw (list_beq-dots c.project q c.node hq) (is_prefix-dots c.project q c.node hp hq)

all_graphic-name :
    (p node : Text)
    → all_graphic p ≡ true
    → all_graphic node ≡ true
    → all_graphic (codes "ntm" ++ (p ++ b'.' ∷ node)) ≡ true
all_graphic-name p node hp hn = inside p hp
  where
    inside : (p : Text) → all_graphic p ≡ true → all_graphic (p ++ b'.' ∷ node) ≡ true
    inside [] h = hn
    inside (c ∷ p) h = ground (arith, inside p)

-- One line, without its end.
abbrev line_of : Container → Text
line_of c = c.container_id ++ 9 ∷ container_name c

strip_line :
    (id : Text) (c : ℕ) (s : Text)
    → is_filled id ≡ true
    → all_graphic id ≡ true
    → all_graphic (c ∷ s) ≡ true
    → left_strip (right_strip (id ++ 9 ∷ c ∷ s)) ≡ id ++ 9 ∷ c ∷ s
unfolding left_strip
strip_line [] c s f g h = ground arith
strip_line (d ∷ id) c s f g h =
    let apart : (d ∷ id) ++ 9 ∷ c ∷ s ≡ ((d ∷ id) ++ 9 ∷ []) ++ c ∷ s =
      sym (append_assoc (d ∷ id) (9 ∷ []) (c ∷ s)) in
    ap (λ t. left_strip (right_strip t)) apart
    ∙ ap left_strip (right_strip-append ((d ∷ id) ++ 9 ∷ []) c s h)
    ∙ ap left_strip (sym apart)
    ∙ ground arith

container_of_line_lem :
    (c : Container) (q : Text)
    → is_proper c ≡ true
    → free_of_dots q ≡ true
    → container_of_line (codes "ntm" ++ q) (line_of c)
      ≡ (if c.project == q then c.container_id ∷ [] else [])
container_of_line_lem c q h hq =
    let stripped : left_strip (right_strip (line_of c)) ≡ line_of c =
      strip_line c.container_id b'n' (codes "tm" ++ (c.project ++ b'.' ∷ c.node)) (ground arith)
        (ground arith) (all_graphic-name c.project c.node (ground arith) (ground arith)) in
    rw
      (
        stripped,
        split_once-append c.container_id (container_name c) (ground arith),
        belongs_lem c q (ground arith) hq,
      )
      refl

-- A listing shows containers with an identifier that is not empty, named `ntm`, the project, a dot
-- and the node, all of printable characters, and with no dot in a project. From it
-- `_parse_project_containers`, for a project identifier without a dot, gives the identifiers of
-- exactly the containers of this project, in their order, also where one project identifier begins
-- like another.
pub parse_project_containers-listing :
    (cs : List Container) (project_id : Text)
    → all_proper cs ≡ true
    → free_of_dots project_id ≡ true
    → parse_project_containers (listing cs) project_id
      ≡ map (λ c. c.container_id) (filter (λ c. c.project == project_id) cs)
unfolding parse_project_containers
parse_project_containers-listing [] q h hq = refl
parse_project_containers-listing (c ∷ cs) q h hq =
    let proper : is_proper c ≡ true = ground arith in
    let name : all_graphic (container_name c) ≡ true =
      all_graphic-name c.project c.node (ground arith) (ground arith) in
    let whole : unbroken (line_of c) ≡ true =
      unbroken-append c.container_id (9 ∷ container_name c)
      ∙ ground (
        arith,
        unbroken_of_graphic c.container_id,
        unbroken_of_graphic (container_name c) name,
      ) in
    let line : splitlines (listing (c ∷ cs)) ≡ line_of c ∷ splitlines (listing cs) =
      ap splitlines (sym (append_assoc c.container_id (9 ∷ container_name c) (10 ∷ listing cs)))
      ∙ lines_from-append (line_of c) (listing cs) whole in
    rw
      (
        line,
        container_of_line_lem c q proper hq,
        parse_project_containers-listing cs q (ground arith) hq,
      )
      (ground arith)
