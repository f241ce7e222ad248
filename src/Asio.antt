-- ===== src/Asio.antt =====
-- Asio/AsioNet: the messages of the framework, and the queue that its threads share.
pub mod Message
pub mod TsQueue
pub mod Connection
pub mod ServerSide
pub mod ClientSide
pub mod Chat
