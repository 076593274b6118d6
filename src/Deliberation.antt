-- ===== src/Deliberation.antt =====
-- services/jurors/src/rubric.ts and decide.ts: how a juror reaches and screens its decision.
pub mod Types
pub mod Extract
pub mod Parse
pub mod Screen
pub mod Prompt
pub mod Decide
pub mod Screened
mod Copies
pub mod Outputs
mod Replies
mod Examples
