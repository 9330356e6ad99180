-- ===== src/Nm.antt =====
-- lib/nm: receiving and sending packets on the network.
pub mod Blocks
pub mod Sockets
pub mod Calls
pub mod Net
pub mod Steps
pub mod Laws
mod Tests
