-- ===== src/Loop.antt =====
-- agent/runtime.py: the loop of a run.
pub mod Targets
pub mod Contradiction
pub mod State
pub mod Turn
pub mod Iterate
pub mod Run
pub mod Rounds
pub mod Steps
pub mod Bounded
pub mod Ends
pub mod LatestStep
pub mod Contradicted
pub mod Caught
pub mod Stuck
pub mod Finished
pub mod Samples
mod Tests
