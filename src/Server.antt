-- ===== src/Server.antt =====
-- The server: src/server/ and include/server/. A world holds every session by its number, the
-- shared ServerState and the outstanding asynchronous operations; a completed operation is a step.
mod State
pub mod World
mod Session
mod Handlers
mod Events
mod Cases
mod Starting
mod Process
mod Handling
mod Roles
mod Counters
mod Routing
mod Registry
mod Invariant
unfoldable pub use State.*
unfoldable pub use Session.*
unfoldable pub use Handlers.*
unfoldable pub use Events.*
pub use Invariant.*
pub use Cases.*
pub use Starting.*
unfoldable pub use Process.*
pub use Handling.*
pub use Roles.*
pub use Counters.*
unfoldable pub use Routing.*
pub use Registry.*
