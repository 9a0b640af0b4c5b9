-- ===== src/Protocol.antt =====
-- include/common/json_protocol.hpp and src/common/json_protocol.cpp: the messages, their fields
-- and the checks that a receiver makes.
mod Defs
mod Messages
mod Cases
mod Fields
mod Accepts
mod RoundTrip
mod Plain
mod Numbers
unfoldable pub use Defs.*
unfoldable pub use Messages.*
pub use Cases.*
pub use Fields.*
pub use Accepts.*
pub use RoundTrip.*
pub use Plain.*
pub use Numbers.*
