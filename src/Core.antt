-- ===== src/Core.antt =====
-- The vocabulary that the sources, the engine and the sinks share (crates/core/src).
pub mod Json
pub mod Lsn
pub mod Error
pub mod Event
pub mod Sink
pub mod Tables
pub mod Load
pub mod Patterns
pub mod Filter
mod Tests
