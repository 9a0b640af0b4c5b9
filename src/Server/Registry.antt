-- ===== src/Server/Registry.antt =====
-- What the server promises about roles, without its sessions: a registry of numbered clients, of
-- which one at most is Node A and one at most is Node B.
mod Moves
mod Joining
mod Steps
mod Final
mod Hello
pub use Moves.*
pub use Steps.*
pub use Final.*
pub use Hello.*
