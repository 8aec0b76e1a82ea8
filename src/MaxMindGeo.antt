-- ===== src/MaxMindGeo.antt =====
-- internal/maxmindgeo/maxmind.go and stat.go: the two databases, their reload and their lookups.
pub mod Files
pub mod Reload
pub mod Lookup
pub mod Coherent
pub mod Snapshot
pub mod Steady
pub mod Exchanges
pub mod Reloads
pub mod Pairs
pub mod Watching
