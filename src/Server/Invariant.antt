-- ===== src/Server/Invariant.antt =====
-- What holds between any two completion handlers of the server.
mod Defs
mod Frames
mod Sending
mod Packets
mod Changes
mod Registering
mod Closing
mod Finishing
mod Accepting
mod Steps
pub use Defs.*
pub use Frames.*
pub use Sending.*
pub use Packets.*
pub use Steps.*
pub use Changes.*
pub use Registering.*
pub use Closing.*
pub use Finishing.*
pub use Accepting.*
