-- ===== src/Compression/Replay.antt =====
-- Replaying a delta on the world of the previous snapshot gives the world of the current one.
pub mod Fields
pub mod Json
pub mod Content
pub mod Equal
pub mod Component
pub mod Entity
pub mod Locality
pub mod Added
pub mod Whole
pub mod Congruence
pub mod Follow
