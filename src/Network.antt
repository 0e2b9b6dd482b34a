-- ===== src/Network.antt =====
-- network/: the in-process IPX network and the layers that wrap it.
pub mod Pipe
pub mod Switch
pub mod Layers
pub mod Doom
