-- ===== src/Store.antt =====
-- apps/api/app/store.py: the metadata store.
pub mod Types
pub mod Datetime
pub mod Jobs
pub mod Leases
pub mod Requeue
pub mod Artifacts
pub mod Retention
pub mod Deletion
pub mod Settings
pub mod History
pub mod Tests
