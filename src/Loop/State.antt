-- ===== src/Loop/State.antt =====
-- agent/runtime.py: the configuration, the surroundings and the variables of `AgentRuntime.run`.
use adversarial_agent_runtim.Prelude.{ℕ, String, Option, List}
use adversarial_agent_runtim.Json.{Json, ℤ, Fields}
use adversarial_agent_runtim.Errors.{Result}
use adversarial_agent_runtim.Codec.{JsonLoads, Codec}
use adversarial_agent_runtim.Database.Schema.{RunState, Database}
use adversarial_agent_runtim.Memory.Manager.{MemoryManager}
use adversarial_agent_runtim.Response.ToolCalls.{ToolCall}
use adversarial_agent_runtim.Runtime.Config.{RunLimits}
use adversarial_agent_runtim.Validator.{LlmCaller, Session}
use adversarial_agent_runtim.Batch.State.{Disk}
use adversarial_agent_runtim.Batch.Execute.{Process}

-- What `AgentRuntime` is made with, and the library calls: `json.loads`, `int` of a value that is no
-- integer, `dict` of a value that is none, `Path(text).name`, and the time at which a call of a
-- batch reaches the store.
pub record Runtime (W C : Type 0) : Type 0 where
  pub max_steps : ℕ
  pub token_budget : ℕ
  pub limits : RunLimits
  pub caller : LlmCaller C
  pub disk : Disk W
  pub codec : Codec
  pub loads : JsonLoads
  pub convert : Json → Result ℤ
  pub to_dict : Json → Result Fields
  pub path_name : String → String
  pub now : ℕ → ℕ → String

-- The variables of the loop, the store, the conversation, the client and the machine.
pub record Running (W C : Type 0) : Type 0 where
  pub db : Database
  pub memory : MemoryManager
  pub machine : W
  pub client : C
  pub step : ℕ
  pub status : String
  pub pending : List ToolCall
  pub total_cost : ℤ

-- How a round of the loop ends: with the next round, or with the value that `run` returns.
pub data Round : Type 0 where
  next_round : Round
  returned : Option RunState → Round

module _ {W C : Type 0} where
  abbrev pub process_of : Running W C → Process W
  process_of s = record { db = s.db; memory = s.memory; machine = s.machine }

  abbrev pub with_process : Running W C → Process W → Running W C
  with_process s p = record s { db = p.db; memory = p.memory; machine = p.machine }

  abbrev pub session_of : Running W C → Session
  session_of s = record { db = s.db; memory = s.memory }

  abbrev pub with_session : Running W C → Session → Running W C
  with_session s t = record s { db = t.db; memory = t.memory }
