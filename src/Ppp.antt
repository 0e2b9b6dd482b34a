-- ===== src/Ppp.antt =====
-- ppp/: the Point-to-Point Protocol as the PPTP server speaks it.
pub mod Lcp
pub mod Negotiate
pub mod Pptp
pub mod Session
