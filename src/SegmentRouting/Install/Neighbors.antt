-- ===== src/SegmentRouting/Install/Neighbors.antt =====
-- The forwarding entries of a satellite, by label and by neighbour (routing/srmpls_daemon.py,
-- `install_sr_forwarding`).
use satgonetem.Base.{
  ℕ, Exception, ◌≡◌, ◌⊎◌, refl, sym, ◌∙◌, ap, inl, inr, false, Option, none, some, List, [], ◌∷◌,
  Text, nat_eq, ok, or_raise, ℤ, pos, negsuc, Option-cases, arith,
}
use satgonetem.Emulator.{Heap}
use satgonetem.SegmentRouting.Manager.{Manager, get_node_sid, labels_of, get_label_stack_for_path}
use satgonetem.SegmentRouting.Entries.{ForwardEntry}
use satgonetem.SegmentRouting.Topology.{Topology, peer_id}
use satgonetem.SegmentRouting.Routes.{next_hop_of}
use satgonetem.SegmentRouting.Install.{neighbor, entry_toward, add_forward}

pub or_raise-ok {ℓ} :
    {A : Type ℓ} (o : Option A) (x : Exception) {a : A} → or_raise o x ≡ ok a → o ≡ some a
or_raise-ok none x h = cc
or_raise-ok (some a) x h = cc

-- Some entry has the label.
abbrev pub SomeFor : ℕ → List ForwardEntry → Type 0
SomeFor l [] = ⊥
SomeFor l (e ∷ es) = (e.target_sid ≡ l) ⊎ SomeFor l es

-- Every entry with the label sends to the node `y`.
abbrev pub AllTo : Heap → ℕ → ℕ → List ForwardEntry → Type 0
AllTo heap l y [] = Unit
AllTo heap l y (e ∷ es) =
    (e.target_sid ≡ l → peer_id (heap e.interface) ≡ some (pos y)) × AllTo heap l y es

pub AllTo-add :
    (heap : Heap) (l y : ℕ) (o : Option ForwardEntry) (es : List ForwardEntry)
    → ((e : ForwardEntry)
        → o ≡ some e
        → e.target_sid ≡ l
        → peer_id (heap e.interface) ≡ some (pos y))
    → AllTo heap l y es
    → AllTo heap l y (add_forward o es)
AllTo-add heap l y none es one rest = rest
AllTo-add heap l y (some e) es one rest = (one e refl, rest)

pub SomeFor-there :
    (l : ℕ) (o : Option ForwardEntry) (es : List ForwardEntry)
    → SomeFor l es
    → SomeFor l (add_forward o es)
SomeFor-there l none es h = h
SomeFor-there l (some e) es h = inr h

pub SomeFor-here :
    (l : ℕ) (o : Option ForwardEntry) (es : List ForwardEntry) (e : ForwardEntry)
    → o ≡ some e
    → e.target_sid ≡ l
    → SomeFor l (add_forward o es)
SomeFor-here l none es e h same = cc
SomeFor-here l (some d) es e h same = inl (ap (λ x. target_or l x) h ∙ same)
  where
    target_or : ℕ → Option ForwardEntry → ℕ
    target_or l none = l
    target_or l (some x) = x.target_sid

pub next_hop_of-same :
    (heap : Heap) (r q : ℕ) (ip : Text) → next_hop_of heap (some r) ≡ some (q, ip) → q ≡ r
unfolding next_hop_of
next_hop_of-same heap r q ip h = ground arith

pub interface_of :
    (heap : Heap) (o : Option ℕ) (iface : ℕ) (ip : Text)
    → next_hop_of heap o ≡ some (iface, ip)
    → o ≡ some iface
unfolding next_hop_of
interface_of heap none iface ip h = cc
interface_of heap (some r) iface ip h = ap some (sym (next_hop_of-same heap r iface ip h))

pub stack_tail :
    (m : Manager) (first : ℕ) (path labels : List ℕ)
    → get_label_stack_for_path m (first ∷ path) false ≡ ok labels
    → labels_of m path ≡ ok labels
unfolding get_label_stack_for_path labels_of
stack_tail m first [] labels h = h
stack_tail m first (y ∷ path) labels h = ground arith

pub neighbor-some :
    (m : Manager) (o : Option ℤ) (id sid : ℕ)
    → neighbor m o ≡ some (id, sid)
    → (o ≡ some (pos id)) × (get_node_sid m id ≡ some sid)
neighbor-some m none id sid h = cc
neighbor-some m (some (negsuc n)) id sid h = cc
neighbor-some m (some (pos n)) id sid h = elim (Option-cases (get_node_sid m n)) [
  | inl gone ↦ ground arith
  | inr (l, found) ↦ (ground arith, ground arith)
]

-- What an entry is made of.
pub entry_toward-some :
    (t : Topology) (hop : Option (ℕ × Text)) (near : Option (ℕ × ℕ)) (e : ForwardEntry)
    → entry_toward t hop near ≡ some e
    → (ip : Text) × (id : ℕ) × (hop ≡ some (e.interface, ip)) × (near ≡ some (id, e.target_sid))
entry_toward-some t none near e h = cc
entry_toward-some t (some (iface, ip)) none e h = cc
entry_toward-some t (some (iface, ip)) (some (id, sid)) e h = (ip, id, ground arith, ground arith)
