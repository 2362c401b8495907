-- ===== src/Database/Schema.antt =====
-- agent/run.py, the rows of the five tables (`_create_tables`) and the records of agent/runtime.py
-- that the store exchanges with its callers.
use adversarial_agent_runtim.Prelude.{ℕ, String, Option, List, []}
use adversarial_agent_runtim.Json.{Json}

-- `RunState` of agent/runtime.py, and a row of `runs`.
pub record RunState : Type 0 where
  pub run_id : String
  pub task : String
  pub status : String
  pub step_count : ℕ
  pub termination_reason : Option String
  pub pending_tool_calls : List Json

-- `Event` of agent/runtime.py.
pub record Event : Type 0 where
  pub run_id : String
  pub event_type : String
  pub payload : Json
  pub step : Option ℕ
  pub idempotency_key : Option String

pub record EventRow : Type 0 where
  pub id : ℕ
  pub event : Event

-- A row of `tool_executions`, and the dict that `get_tool_execution` makes of it.
pub record ToolExecution : Type 0 where
  pub idempotency_key : String
  pub run_id : String
  pub tool_call_id : String
  pub tool_name : String
  pub arguments : Json
  pub result : Option Json
  pub error : Option String
  pub status : String

pub record SentEmail : Type 0 where
  pub idempotency_key : String
  pub run_id : String
  pub recipient : String
  pub subject : String
  pub body : String
  pub created_at : String

-- `RunStateDTO`, and a row of `run_states`.
pub record RunStateDto : Type 0 where
  pub run_id : String
  pub current_state : String
  pub step_count : ℕ

-- `last_event_id` is the sequence of the AUTOINCREMENT column.
pub record Database : Type 0 where
  pub runs : List RunState
  pub events : List EventRow
  pub last_event_id : ℕ
  pub tool_executions : List ToolExecution
  pub sent_emails : List SentEmail
  pub run_states : List RunStateDto

abbrev pub empty_database : Database
empty_database = record {
  runs = [];
  events = [];
  last_event_id = 0;
  tool_executions = [];
  sent_emails = [];
  run_states = [];
}

abbrev pub run_key : RunState → String
run_key r = r.run_id

abbrev pub execution_key : ToolExecution → String
execution_key r = r.idempotency_key

abbrev pub email_key : SentEmail → String
email_key r = r.idempotency_key

abbrev pub state_key : RunStateDto → String
state_key r = r.run_id
