-- ===== src/Daemon/Pipeline.antt =====
-- internal/daemon/pipeline.go, planner.go and schema.go: the executor, from the planner's calls to
-- the reply.
pub mod Types
pub mod Effects
pub mod Plan
pub mod Stages
pub mod Run
pub mod Outcome
pub mod Loop
pub mod Order
pub mod Body
