-- ===== src/Stream.antt =====
-- inference/stream_processor_faust.py: what becomes of an event and of each detection on it.
pub mod Schema
pub mod Letters
pub mod Detect
pub mod Emit
pub mod Process
pub mod Protocol
pub mod Steps
pub mod Refines
pub mod Settled
pub mod TwoPhase
pub mod Gate
