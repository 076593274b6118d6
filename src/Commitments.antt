-- ===== src/Commitments.antt =====
-- packages/shared/src/commitments.ts: the commitments to a version's tasks.
pub mod Masks
pub mod Tree
