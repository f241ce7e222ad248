-- ===== src/ClientApp.antt =====
-- GameServer/ClientApp: the client that draws the world in three dimensions.
pub mod ClientSocket
pub mod GameScene
