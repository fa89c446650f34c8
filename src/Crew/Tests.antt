-- ===== src/Crew/Tests.antt =====
-- The plan, the runs and the conflicts of the crew that `build_specs` lists.
mod Plan
mod Run
mod Conflicts
