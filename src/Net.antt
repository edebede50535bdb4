-- ===== src/Net.antt =====
-- net/: services that the transports share.
pub mod Sequence
pub mod Tokenless
pub mod CriticalOptions
pub mod KeepAlive
pub mod Limit
pub mod Observation
