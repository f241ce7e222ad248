-- ===== src/Network.antt =====
-- GameServer/Network: the receive and send buffer of a socket, the pool of overlapped records and
-- the framing of packets.
pub mod BufferQueue
pub mod Bytes
pub mod Protocol
pub mod MemoryPool
pub mod Overlapped
