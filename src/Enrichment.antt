-- ===== src/Enrichment.antt =====
-- The threat enrichment of inference/enrichment.py: its cache, and the guard before the live lookup.
pub mod Cache
pub mod Fetch
pub mod Bounds
pub mod Guard
pub mod Evidence
