-- ===== src/Runtime.antt =====
-- agent/runtime.py: the run's limits, keys and decisions. `AgentRuntime` reads its own event log to
-- decide how to go on, also after a restart.
pub mod Config
pub mod Keys
pub mod Log
pub mod Budget
pub mod Progress
pub mod Appended
pub mod Pending
pub mod Recovered
pub mod Recorded
pub mod RunOne
pub mod Blocked
pub mod Charged
pub mod Repeats
pub mod Finished
mod Tests
