-- ===== src/Pkg.antt =====
-- pkg/: the map and the cache that the connections share.
pub mod SyncMap
pub mod Cache
