-- ===== src/Detection.antt =====
-- inference/features.py and inference/rules.py: from a Zeek event to the detections of the rules.
pub mod Event
pub mod Features
pub mod Rules
pub mod Reportable
pub mod Laws
pub mod Counts
