-- ===== src/Static/Daemon/Removal.antt =====
-- The removal of the routes of one node.
use satgonetem.Base.{List, nat_eq, text_eq}
use satgonetem.Static.Diff.{text_pair_eq, key_eq}
use satgonetem.Static.Diff.Kernel.{Kernel}
