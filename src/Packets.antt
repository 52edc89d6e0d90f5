-- ===== src/Packets.antt =====
-- internal/packets: the packet structures, the map tracker and the packet databases.
pub mod Database
pub mod Receive
pub mod Send
pub mod Sizes
pub mod Parser
pub mod Context
pub mod Handlers
pub mod Deserialize
