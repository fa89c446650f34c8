-- ===== src/Crew.antt =====
-- The crew of agents that a worker runs: apps/worker/worker/agent_runtime.py and
-- apps/worker/worker/agent_contracts.py.
pub mod Specs
pub mod Plan
pub mod Executions
pub mod Budget
pub mod Run
pub mod Reviews
pub mod Conflicts
mod Tests
