-- ===== src/Engine/Pipeline.antt =====
-- The pipeline of `run`: the engine task, the sink loop and the checkpoint task together.
pub mod Checkpoints
pub mod Covered
pub mod EndToEnd
