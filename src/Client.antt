-- ===== src/Client.antt =====
-- GameServer/D2DApp: the client that draws the world in two dimensions.
pub mod GameObject
pub mod Scene
pub mod NetClient
