-- ===== src/NodeB.antt =====
-- src/node_b/main.cpp: the program that answers each packet with the magnitude of its vector.
mod Defs
mod Replies
mod Answers
mod Magnitude
mod Counts
unfoldable pub use Defs.*
pub use Replies.*
pub use Answers.*
pub use Magnitude.*
pub use Counts.*
