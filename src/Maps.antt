-- ===== src/Maps.antt =====
-- src/lib/maps: path mapping between remote and local files, by files, directories or line ranges.
pub mod Types
pub mod Ranges
pub mod Lookup
pub mod Parser
