-- ===== src/SegmentRouting.antt =====
-- routing/srmpls_daemon.py and models/mpls_entry.py: segment routing over MPLS.
pub mod Manager
pub mod Entries
pub mod Topology
pub mod Routes
pub mod Install
pub mod Forwarding
pub mod Daemon
