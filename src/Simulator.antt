-- ===== src/Simulator.antt =====
-- The synthetic traffic of ingest/simulator.py, and what the rules say of it.
pub mod Traffic
pub mod Drawn
pub mod Fires
pub mod Verdicts
