-- ===== src/Qproxy.antt =====
-- module/qproxy: Quake UDP servers on the IPX network.
pub mod Sharder
pub mod Proxy
