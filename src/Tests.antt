-- ===== src/Tests.antt =====
-- Concrete inputs for the theorems, in modules named for the programs' parts.
mod Addresses
mod Links
mod Flows
mod Hil
mod Launch
mod Lifecycle
mod Kernels
mod StaticRoutes
mod SegmentRoutes
mod Controller
mod RouteLines
