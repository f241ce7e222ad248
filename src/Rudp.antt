-- ===== src/Rudp.antt =====
-- RUDP/Network: the socket that was to become a reliable one over UDP.
pub mod PeerKey
pub mod Socket
