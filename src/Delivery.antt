-- ===== src/Delivery.antt =====
-- agents/src/buyer/verify.ts: the checks of a delivery before the buyer trusts it.
pub mod Private
pub mod Inputs
pub mod Checks
pub mod Opened
pub mod Verified
mod Examples
