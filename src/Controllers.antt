-- ===== src/Controllers.antt =====
-- The four reconcilers of controllers/*.go.
pub mod Outcome
pub mod Quiet
pub mod Returning
mod Scripts
pub mod NodeSets
pub mod NodePools
pub mod Clusters
pub mod ControlPlanes
