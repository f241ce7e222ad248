-- ===== src/System.antt =====
-- The server and its clients together: what a client's screen shows, and what the server holds of it.
pub mod Runs
pub mod Keep
pub mod Screen
pub mod Grid
pub mod Queue
pub mod Keys
