-- ===== src/Tests.antt =====
-- The theorems at concrete buffers, messages, positions and worlds.
mod Attacks
mod Buffers
mod Chats
mod Clients
mod Connections
mod Pawns
mod Runs
mod Systems
mod Worlds
