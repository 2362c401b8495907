-- ===== src/Response.antt =====
-- agent/response.py: what the model's reply becomes. `loads` is `json.loads`, with `none` where it
-- raises JSONDecodeError. A reply that Python cannot work through raises a TypeError.
pub mod Repair
pub mod Source
pub mod ToolCalls
pub mod Reply
pub mod Repaired
pub mod Filled
pub mod RawCalls
pub mod Faithful
pub mod TypeErrors
pub mod Escapes
mod Tests
