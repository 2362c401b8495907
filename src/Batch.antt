-- ===== src/Batch.antt =====
-- `_execute_tool_calls` of agent/runtime.py: one batch of tool calls.
pub mod State
pub mod Preimages
pub mod Phases
pub mod Execute
pub mod Slots
pub mod Emails
pub mod Frozen
pub mod Waiting
pub mod Failed
pub mod Held
pub mod Replayed
pub mod Reported
pub mod Samples
mod Tests
