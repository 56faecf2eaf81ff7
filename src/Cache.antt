-- ===== src/Cache.antt =====
-- The caches in memory (cache).
pub mod Local
pub mod MaxCount
pub mod Layers
pub mod Redis
pub mod Lock
pub mod Shutdown
pub mod Broker
pub mod SafeMap
mod Tests
