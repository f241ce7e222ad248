-- ===== src/Server.antt =====
-- GameServer/Server: the game server. The children follow its files; World and the modules behind
-- it are the class IOCPServer.
pub mod PlayerInfo
pub mod Geometry
pub mod SectorManager
pub mod Session
pub mod Timer
pub mod DbHandler
pub mod World
pub mod Npc
pub mod Sight
pub mod Clients
pub mod Packets
pub mod Threads
pub mod Completion
