-- ===== src/JurorProcess.antt =====
-- services/jurors/src/{state,commit,market,juror}.ts: the process of one juror.
pub mod Store
pub mod Commit
pub mod Market
pub mod Phases
pub mod Tick
pub mod Frames
pub mod Secrets
pub mod Book
pub mod Durable
pub mod Steps
pub mod Ticks
pub mod History
pub mod Reveal
pub mod Refines
mod Unsaved
mod Examples
