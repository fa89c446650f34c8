-- ===== src/Api.antt =====
-- The routes of apps/api/app/main.py.
pub mod Guards
pub mod Paths
pub mod Jobs
pub mod Settings
mod Tests
