-- ===== src/NodeA.antt =====
-- src/node_a: the program that sends packets of an emulated accelerometer, and writes the modules
-- that come back to a file, in two threads over one client.
mod Emulator
mod State
mod Defs
mod Steps
mod Threads
mod Sending
mod Modules
mod Logging
mod Shutdown
unfoldable pub use Emulator.*
pub use State.*
unfoldable pub use Defs.*
pub use Steps.*
pub use Threads.*
pub use Sending.*
pub use Modules.*
pub use Logging.*
pub use Shutdown.*
