-- ===== src/Training.antt =====
-- The scripts that train, sign and verify the DGA model, and the loading of it by inference/models.py.
pub mod Sidecar
pub mod Digests
pub mod Reads
pub mod Deploy
pub mod Loop
pub mod Progress
pub mod Domains
pub mod Dataset
pub mod Signing
