-- ===== src/Engine.antt =====
-- The pipeline between a source and a sink (crates/engine/src/lib.rs).
pub mod Mapping
pub mod Placing
pub mod Rows
pub mod Command
pub mod Intake
pub mod Batch
pub mod SinkLoop
pub mod Pipeline
mod Tests
