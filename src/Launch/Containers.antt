-- ===== src/Launch/Containers.antt =====
-- The containers of a project, in the output of `docker ps` (launchers/gonetem_launcher.py).
use satgonetem.Base.{
  ℕ, Bool, false, ◌&&◌, ◌||◌, Option, none, some, List, [], ◌∷◌, ◌++◌, Text, codes, is_prefix,
  left_strip, right_strip, leb, nat_beq, if◌then◌else◌, ◌==◌, text_eq,
}

-- The characters at which `str.splitlines` ends a line.
abbrev pub is_line_break : ℕ → Bool
is_line_break c =
    leb 10 c && leb c 13 || leb 28 c && leb c 30 || nat_beq c 0x85 || leb 0x2028 c && leb c 0x2029

abbrev pub prepend : ℕ → List Text → List Text
prepend c [] = (c ∷ []) ∷ []
prepend c (w ∷ ws) = (c ∷ w) ∷ ws

-- The lines of a text; a line feed right after a carriage return does not count.
unfoldable pub lines_from : Bool → Text → List Text
lines_from after_return [] = []
lines_from after_return (c ∷ s) =
    let next = lines_from (nat_beq c 13) s in
    if after_return && nat_beq c 10
    then next
    else if is_line_break c
    then [] ∷ next
    else prepend c next

-- `s.splitlines()`
unfoldable pub splitlines : Text → List Text
unfolding lines_from
splitlines s = lines_from false s

-- `s.split(sep, 1)`, if it has two parts
unfoldable pub split_once : ℕ → Text → Option (Text × Text)
split_once sep [] = none
split_once sep (c ∷ s) =
    let rest = split_once sep s in
    if nat_beq c sep then some ([], s) else elim rest [ none ↦ none | some p ↦ some (c ∷ p.0, p.1) ]

-- `name == prefix or name.startswith(prefix + ".")`
abbrev pub belongs : Text → Text → Bool
belongs prefix name = name == prefix || is_prefix (prefix ++ b'.' ∷ []) name

abbrev pub container_of_parts : Text → Option (Text × Text) → List Text
container_of_parts prefix none = []
container_of_parts prefix (some (container_id, name)) =
    if belongs prefix name then container_id ∷ [] else []

abbrev pub container_of_line : Text → Text → List Text
container_of_line prefix line =
    container_of_parts prefix (split_once 9 (left_strip (right_strip line)))

unfoldable pub containers_of_lines : Text → List Text → List Text
unfolding split_once
containers_of_lines prefix [] = []
containers_of_lines prefix (line ∷ ls) =
    container_of_line prefix line ++ containers_of_lines prefix ls

-- `_parse_project_containers`
unfoldable pub parse_project_containers : Text → Text → List Text
unfolding splitlines containers_of_lines
parse_project_containers stdout project_id =
    containers_of_lines (codes "ntm" ++ project_id) (splitlines stdout)
