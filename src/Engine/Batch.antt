-- ===== src/Engine/Batch.antt =====
-- The engine task of `run`: its variables as a state, and the loop body as `turn`.
pub mod State
pub mod Rows
pub mod Handlers
pub mod View
pub mod Moves
pub mod Gathered
pub mod Commits
pub mod Clears
pub mod Refines
pub mod Waiting
pub mod Consumes
pub mod Bytes
pub mod Limits
pub mod Quiet
pub mod Marks
pub mod Floors
pub mod Window
pub mod Stranded
