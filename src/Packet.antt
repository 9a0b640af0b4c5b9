-- ===== src/Packet.antt =====
-- include/common/accel_packet.hpp and accel_module.hpp: the two messages that carry data, and the
-- test for duplicates, which compares the axes rounded to thousandths.
mod Defs
mod Duplicates
unfoldable pub use Defs.*
pub use Duplicates.*
