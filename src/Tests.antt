-- ===== src/Tests.antt =====
-- Concrete objects, an environment, and theorems at them.
pub mod Fixtures
pub mod Nodes
pub mod Scaling
pub mod Pools
pub mod LifeCycles
pub mod Servers
pub mod Planes
pub mod Networks
pub mod Commands
