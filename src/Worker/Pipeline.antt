-- ===== src/Worker/Pipeline.antt =====
-- `WorkerPipeline` of apps/worker/worker/pipeline.py.
pub mod Types
pub mod Config
pub mod Summary
pub mod Host
pub mod Stages
pub mod Review
pub mod Run
pub mod Triples
pub mod Attempts
pub mod Loop
pub mod Frames
pub mod Ends
pub mod Verdict
