-- ===== src/Capture.antt =====
-- tydomio/capture: the anonymized, read-only capture of a Tydom.
pub mod Anonymize
pub mod Catalog
pub mod Fetch
pub mod Json
pub mod Policy
