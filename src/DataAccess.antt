-- ===== src/DataAccess.antt =====
-- shared/data_access.py: what the dashboard fetches from the API and makes of it.
pub mod Polling
pub mod Incidents
pub mod Partition
pub mod Listeners
