-- ===== src/Server/Counters.antt =====
-- The counters of packets of a session.
mod Operations
mod Runs
pub use Operations.*
pub use Runs.*
