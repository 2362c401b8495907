-- ===== src/Memory.antt =====
-- agent/message.py: the messages that the model is shown, their compaction to a token budget, and
-- the facts that are kept beside them.
pub mod Message
pub mod Window
pub mod Manager
pub mod Context
pub mod Droppable
pub mod Protected
pub mod FirstUser
pub mod Fits
pub mod Keeps
pub mod Bounded
pub mod Untrusted
mod Tests
