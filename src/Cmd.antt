-- ===== src/Cmd.antt =====
-- cmd/*: the commands on node pools, control planes and clusters, and the manifests that they apply.
pub mod Polling
mod NodePools
mod ControlPlanes
mod Apply
pub mod Clusters
pub mod Flow
pub mod Web
pub mod Flags
pub mod Commands
pub mod Reports
pub mod Outcomes
pub mod PlaneOutcomes
unfoldable pub use Polling.*
unfoldable pub use NodePools.*
unfoldable pub use ControlPlanes.*
unfoldable pub use Apply.*
unfoldable pub use Clusters.*
unfoldable pub use Flow.*
