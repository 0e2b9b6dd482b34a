-- ===== src/Server.antt =====
-- server/: the UDP server and the protocols that run on it.
pub mod Clients
pub mod Dosbox
pub mod Uplink
