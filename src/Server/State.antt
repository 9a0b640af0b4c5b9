-- ===== src/Server/State.antt =====
-- ServerState: the two slots, and what registering and removing a session does to them.
mod Defs
mod Slots
unfoldable pub use Defs.*
pub use Slots.*
