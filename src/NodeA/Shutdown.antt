-- ===== src/NodeA/Shutdown.antt =====
-- The end of Node A.
mod Falls
mod Orderly
mod Ending
pub use Falls.*
pub use Orderly.*
pub use Ending.*
