-- ===== src/Jurors.antt =====
-- services/jurors-vercel/src/lib: the hosted juror service, one workflow per dispute.
pub mod Types
pub mod Planner
pub mod Batches
pub mod Memories
pub mod Driver
mod Examples
