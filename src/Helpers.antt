-- ===== src/Helpers.antt =====
-- helpers/helpers.go and helpers/cordonanddrain.go.
mod Finalizers
mod Nodes
mod Scripts
mod Versions
mod RestClient
pub mod Drain
pub mod Waiting
pub mod VersionWait
pub mod Published
unfoldable pub use Finalizers.*
unfoldable pub use Nodes.*
unfoldable pub use Scripts.*
unfoldable pub use Versions.*
unfoldable pub use RestClient.*
