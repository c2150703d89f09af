-- ===== src/Static.antt =====
-- routing/static_daemon.py: static routes by shortest paths.
pub mod Diff
pub mod Install
pub mod Populate
pub mod Ifaces
pub mod Daemon
