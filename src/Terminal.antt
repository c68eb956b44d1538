-- ===== src/Terminal.antt =====
-- The terminal console: terminal/tsoc_console.py.
pub mod Console
pub mod Ranked
pub mod Queue
