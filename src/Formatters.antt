-- ===== src/Formatters.antt =====
-- The texts that the dashboard and the terminal show: shared/formatters.py.
pub mod Markdown
pub mod Labels
pub mod Evidence
