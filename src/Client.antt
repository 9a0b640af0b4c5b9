-- ===== src/Client.antt =====
-- include/common/tcp_client.hpp and src/common/tcp_client.cpp: the blocking client of both nodes.
mod Defs
mod Reading
mod Writing
mod Sharing
unfoldable pub use Defs.*
pub use Reading.*
pub use Writing.*
pub use Sharing.*
