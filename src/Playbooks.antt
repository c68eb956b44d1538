-- ===== src/Playbooks.antt =====
-- inference/playbooks.py: the response playbook of an alert.
pub mod Templates
pub mod Quote
pub mod Generate
pub mod Shell
pub mod Choice
pub mod Marks
pub mod Render
pub mod Commands
