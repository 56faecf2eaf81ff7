-- ===== src/Micro.antt =====
-- Networking and remote calls (micro).
pub mod Frames
pub mod Rpc
pub mod Message
pub mod Pool
