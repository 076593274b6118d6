-- ===== src/Publication.antt =====
-- services/jurors/src/publish.ts: the document of a juror's rationale and its publication.
pub mod Canonical
pub mod Document
pub mod Upload
mod Order
pub mod Passes
mod Objects
mod Confirmed
mod Examples
