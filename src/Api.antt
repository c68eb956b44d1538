-- ===== src/Api.antt =====
-- The HTTP surface: the routes of api/routes/alerts.py, api/main.py with its middleware, handlers and statistics, the tokens
-- of api/auth.py, and what has to be configured before the API starts.
pub mod Alerts
pub mod Listing
pub mod Paging
pub mod Stats
pub mod Tokens
pub mod Tracing
pub mod Boot
pub mod Secure
pub mod Sorting
