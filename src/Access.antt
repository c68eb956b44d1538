-- ===== src/Access.antt =====
-- Who calls the API: the client's address behind proxies, and what a caller may do (api/deps.py).
pub mod Address
pub mod Client
pub mod Trust
pub mod Narrow
pub mod Auth
pub mod Entitled
pub mod Scopes
