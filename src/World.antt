-- ===== src/World.antt =====
-- The world around the program as an environment that answers calls, and the procedures over it.
mod Network
pub mod Web
mod Objects
mod Requests
mod Procedures
pub mod Keeps
pub mod Ends
pub mod Post
pub use Network.*
pub use Objects.*
pub use Requests.*
pub use Procedures.*
