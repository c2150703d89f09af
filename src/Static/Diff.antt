-- ===== src/Static/Diff.antt =====
-- The route diff of routing/static_daemon.py: `_entry_key`, `_route_line`, `_emit_batch_commands`
-- and the payload of `_exec_batch`.
pub mod Kernel
pub mod Batches
pub mod Refines
pub mod Tables
use satgonetem.Base.{
  ◌≡◌, refl, Bool, true, false, not, ◌&&◌, ◌||◌, Option, none, some, List, [], ◌∷◌, ◌++◌, map, Text,
  codes, mem, Dict, put, keys, filter, Result, ok, raise, ◌>>=◌, map_result, if◌then◌else◌, text_eq,
  pair_beq, pair_beq_iff, Eq,
}
use satgonetem.Emulator.{Heap, RoutingEntry, get_iname, get_prefix}

-- (destination, "/" + prefix length)
abbrev pub Prefix : Type 0
Prefix = Text × Text

-- (gateway, device)
abbrev pub Via : Type 0
Via = Text × Text

-- The tuple of `_entry_key`, grouped by what the kernel looks up and what it finds.
abbrev pub Key : Type 0
Key = Prefix × Via

-- Equality of tuples. That of the parts stays shut, so that a proof sees one test for each.
instance unfoldable pub text_pair_eq : Eq (Text × Text)
text_pair_eq = record {
  beq = pair_beq text_eq.beq text_eq.beq;
  beq_iff = pair_beq_iff text_eq text_eq;
}

instance abbrev pub key_eq : Eq Key
key_eq = record {
  beq = pair_beq text_pair_eq.beq text_pair_eq.beq;
  beq_iff = pair_beq_iff text_pair_eq text_pair_eq;
}

unfoldable pub entry_key : Heap → RoutingEntry → Result Key
entry_key heap e = do
  dev ← get_iname (heap e.interface)
  ok ((e.destination, get_prefix e), (e.gateway, dev))

pub data Line : Type 0 where
  del replace : Key → Line

abbrev operation : Line → Text
operation (del k) = codes "del"
operation (replace k) = codes "replace"

abbrev line_key : Line → Key
line_key (del k) = k
line_key (replace k) = k

-- The text of a line, as `_route_line` prints it.
unfoldable pub route_line : Line → Text
route_line l =
    let ((destination, prefix), (gateway, dev)) = line_key l in
    codes "route "
    ++ operation l
    ++ codes " "
    ++ destination
    ++ prefix
    ++ codes " via "
    ++ gateway
    ++ codes " dev "
    ++ dev

-- `"\n".join(lines)`, what the batch of `_exec_batch` carries
unfoldable pub payload : List Line → Text
payload [] = []
payload (l ∷ []) = route_line l
payload (l ∷ m ∷ ls) = route_line l ++ 10 ∷ payload (m ∷ ls)

-- `{self._entry_key(e): e for e in tbl}`
unfoldable pub index_from :
    Heap → Dict Key RoutingEntry → List RoutingEntry → Result (Dict Key RoutingEntry)
index_from heap d [] = ok d
index_from heap d (e ∷ tbl) = do k ← entry_key heap e; index_from heap (put k e d) tbl

abbrev pub prefix_of : RoutingEntry → Prefix
prefix_of e = (e.destination, get_prefix e)

-- the test on `live_devs`; `none` is the default argument
abbrev pub may_delete : Option (List Text) → Key → Bool
may_delete none k = true
may_delete (some live) k = mem k.1.1 live

-- `removed + added`, from the keys of the two dictionaries and the current prefixes. A line is
-- printed from the key of its entry, which has all that `_route_line` reads.
unfoldable pub diff_lines : List Key → List Key → List Prefix → Option (List Text) → List Line
diff_lines prev curr curr_prefixes live =
    map del
      (filter (λ k. not (mem k curr) && not (mem k.0 curr_prefixes) && may_delete live k) prev)
    ++ map replace (filter (λ k. not (mem k prev)) curr)

-- `_emit_batch_commands`; `same` is `prev_tbl is curr_tbl`.
unfoldable pub emit_batch_commands :
    Heap → Bool → List RoutingEntry → List RoutingEntry → Option (List Text) → Result (List Line)
unfolding index_from diff_lines
emit_batch_commands heap true prev_tbl curr_tbl live = ok []
emit_batch_commands heap false prev_tbl curr_tbl live = do
  curr ← index_from heap [] curr_tbl
  prev ← index_from heap [] prev_tbl
  ok (diff_lines (keys prev) (keys curr) (map prefix_of curr_tbl) live)
