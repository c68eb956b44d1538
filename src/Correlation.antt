-- ===== src/Correlation.antt =====
-- inference/correlation.py: the sliding window of alerts that Redis keeps for each source address.
-- `Scripts` has the two Lua scripts, `Alert` the methods that call them; the other modules prove.
pub mod Scripts
pub mod Keys
pub mod Effects
pub mod Window
pub mod Counting
pub mod Seen
pub mod Replay
pub mod Undo
pub mod Rollback
pub mod Expiry
pub mod Alert
pub mod Request
pub mod Compensation
pub mod Report
pub mod Covers
pub mod Severity
pub mod Master
pub mod Connection
pub mod Handler
