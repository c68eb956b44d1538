-- ===== src/Inference.antt =====
-- inference/models.py: which parts of a domain the network is shown.
pub mod Encode
pub mod Slices
pub mod Predict
pub mod Coverage
pub mod Windows
pub mod Batch
pub mod Variants
pub mod Orchestrator
