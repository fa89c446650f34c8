-- ===== src/Worker.antt =====
-- apps/worker/worker: the worker that leases jobs and runs them through the pipeline.
pub mod Proxy
pub mod Pipeline
pub mod Runner
mod Tests
