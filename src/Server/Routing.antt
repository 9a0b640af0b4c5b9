-- ===== src/Server/Routing.antt =====
-- What the server sends to whom.
mod Outbox
mod Packets
mod Lines
mod Kept
mod Latest
mod Reading
mod Filtering
mod Delivery
mod Arriving
mod Answering
mod Clients
mod Wires
mod Writing
pub use Outbox.*
pub use Packets.*
pub use Lines.*
pub use Kept.*
pub use Latest.*
pub use Writing.*
pub use Reading.*
unfoldable pub use Filtering.*
pub use Delivery.*
pub use Arriving.*
pub use Answering.*
pub use Clients.*
