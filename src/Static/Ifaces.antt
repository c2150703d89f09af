-- ===== src/Static/Ifaces.antt =====
-- Interface maps by peer (routing/static_daemon.py, `_PEER_IFACE_PATTERN`, `_peer_iface_map`).
use satgonetem.Base.{
  ℕ, Bool, true, false, ◌&&◌, ◌||◌, Option, some, List, [], ◌∷◌, Text, Dict, put, if◌then◌else◌,
  nat_eq, codes, split, is_digit, is_prefix, int_of_text, ℤ, pos,
}
use satgonetem.Emulator.{Heap}

-- `\d*` and `\d+`
abbrev digits : Text → Bool
digits [] = true
digits (c ∷ s) = is_digit c && digits s

abbrev number : Text → Bool
number [] = false
number (c ∷ s) = is_digit c && digits s

abbrev drop_three : Text → Text
drop_three (a ∷ b ∷ c ∷ s) = s
drop_three s = []

-- `_PEER_IFACE_PATTERN.match(name)` with the two sides of the dot: (Gnd|Sat)\d+\.\d+
abbrev matches_pattern : List Text → Bool
matches_pattern (node ∷ peer ∷ []) =
    (is_prefix (codes "Gnd") node || is_prefix (codes "Sat") node)
    && number (drop_three node)
    && number peer
matches_pattern parts = false

abbrev add_iface : ℕ → Option ℤ → Dict ℕ ℕ → Dict ℕ ℕ
add_iface iface (some (pos peer)) mapping = put peer iface mapping
add_iface iface other mapping = mapping

abbrev peer_part : List Text → Text
peer_part (node ∷ peer ∷ rest) = peer
peer_part parts = []

-- `_peer_iface_map`, over the interfaces of a node; a name that does not match is skipped.
unfoldable pub peer_iface_map : Heap → List ℕ → Dict ℕ ℕ → Dict ℕ ℕ
unfolding split int_of_text
peer_iface_map heap [] mapping = mapping
peer_iface_map heap (r ∷ rs) mapping =
    let parts = split b'.' (heap r).name in
    peer_iface_map heap rs (
      if matches_pattern parts
      then add_iface r (int_of_text (peer_part parts)) mapping
      else mapping)
