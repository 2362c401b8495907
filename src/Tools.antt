-- ===== src/Tools.antt =====
-- agent/executer.py: the tools that the model may call, and `ToolExecutor`.
pub mod Host
pub mod Handlers
pub mod Executor
pub mod Confined
pub mod Recorded
mod Tests
