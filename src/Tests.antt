-- ===== src/Tests.antt =====
-- The theorems at concrete inputs, and runs of the code.
pub mod Frames
pub mod Games
pub mod Rooms
pub mod Catalogs
pub mod Packets
pub mod Sessions
pub mod Updates
pub mod Departures
pub mod Transfers
pub mod Chats
pub mod Dispatches
pub mod Topologies
