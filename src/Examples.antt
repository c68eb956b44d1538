-- ===== src/Examples.antt =====
-- Concrete runs of the components, and the theorems at them.
mod Windows
mod Batches
mod Events
mod Callers
mod Lookups
mod Alerts
mod Lines
mod Streams
mod Domains
mod Commands
mod Captures
mod Requests
mod Models
mod Texts
mod Console
