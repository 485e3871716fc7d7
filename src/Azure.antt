-- ===== src/Azure.antt =====
-- azure/*.go: the Azure clients and the operations on scale sets and resource groups.
mod Clients
mod CustomData
mod Vmss
pub mod Zones
pub mod Creation
pub mod Steps
pub mod Authorizer
pub mod Digits
mod Groups
mod CloudConfig
mod Network
unfoldable pub use Clients.*
unfoldable pub use CustomData.*
unfoldable pub use Vmss.*
unfoldable pub use Groups.*
unfoldable pub use CloudConfig.*
unfoldable pub use Network.*
