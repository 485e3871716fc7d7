-- ===== src/Bootstrap.antt =====
-- bootstrap/*.go: the names, the spec, the start-up scripts, the bootstrap tokens, the network and
-- the first machine.
mod Names
mod Scripts
mod Token
mod Certificates
mod Specs
mod Infrastructure
mod BaseInfrastructure
pub mod FirstMachine
pub mod Order
pub mod Filling
pub mod HostNames
unfoldable pub use Names.*
unfoldable pub use Scripts.*
unfoldable pub use Token.*
unfoldable pub use Certificates.*
unfoldable pub use Specs.*
unfoldable pub use Infrastructure.*
unfoldable pub use BaseInfrastructure.*
