-- ===== src/Compression.antt =====
-- compression.rs: the differences of two snapshots, by entity, component and field.
pub mod Json
pub mod Field
pub mod Delta
pub mod World
mod JsonExamples
pub mod Replay
pub mod Unchanged
pub mod Granular
mod Examples
