-- ===== src/Changes/Phases.antt =====
-- Life cycles: the changes that a procedure asks for, as the steps of a machine with phases.
mod Moving
mod Concluding
pub use Moving.*
pub use Concluding.*
