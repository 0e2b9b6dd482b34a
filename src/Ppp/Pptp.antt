-- ===== src/Ppp/Pptp.antt =====
-- ppp/pptp/: PPP over PPTP, with its GRE sessions and its control connection.
pub mod Gre
pub mod Control
