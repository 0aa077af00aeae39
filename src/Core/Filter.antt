-- ===== src/Core/Filter.antt =====
-- crates/core/src/filter.rs: a row filter, a restricted SQL predicate that the database runs in a
-- load and the engine on every streamed row. Texts are byte strings. The arithmetic of `f64` is the
-- parameter Floats, and a refusal keeps what its message names, without the wording.
pub mod Syntax
pub mod Eval
pub mod Render
pub mod Tokens
pub mod Scan
pub mod Parser
pub mod Parse
pub mod Pieces
pub mod Lexed
pub mod Reparsed
pub mod RoundTrip
mod Tests
