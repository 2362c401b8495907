-- ===== src/Runtime/Config.antt =====
-- The configuration, agent/runtime.py. Here is the part of `RuntimeConfig` that bounds a run. The
-- values are checked to be positive integers when the configuration is made.
use adversarial_agent_runtim.Prelude.{ℕ}
pub mod Values
pub mod Coerce
pub mod Load
pub mod Mappings
pub mod Usable
pub mod Loaded
pub mod Ready
mod Tests

pub record RunLimits : Type 0 where
  pub cost_budget_tokens : ℕ
  pub no_progress_limit : ℕ
