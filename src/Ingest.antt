-- ===== src/Ingest.antt =====
-- The log shipper of ingest/tail_to_redpanda.py.
pub mod Tail
pub mod Counts
pub mod Marks
pub mod Flows
pub mod Table
pub mod Tally
pub mod Silent
