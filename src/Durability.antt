-- ===== src/Durability.antt =====
-- What the store of agent/run.py promises over any history of its operations, by any number of
-- processes on one database: each operation is one transaction, so a history is a sequence.
pub mod Constraints
pub mod Valid
pub mod Append
pub mod Once
pub mod Progress
mod Tests
use adversarial_agent_runtim.Prelude.{ℕ, String, Option, List, [], ◌∷◌}
use adversarial_agent_runtim.Json.{Json}
use adversarial_agent_runtim.Errors.{Result, ok, raised}
use adversarial_agent_runtim.Database.Schema.{ToolExecution, SentEmail, RunStateDto, Database}
use adversarial_agent_runtim.Database.EventLog
use adversarial_agent_runtim.Database.RunRows
use adversarial_agent_runtim.Database.RunRows.{Changes}
use adversarial_agent_runtim.Database.SideEffects

-- The methods of `AgentDatabase` that write; the others are calls of these.
pub data Operation : Type 0 where
  create_run : String → String → Operation
  update_run : String → Changes → Operation
  update_run_and_append_event :
      String → String → Json → Changes → Option ℕ → Option String → Operation
  append_event : String → String → Json → Option ℕ → Option String → Operation
  save_state : RunStateDto → Operation
  record_tool_execution : ToolExecution → Operation
  send_email_once : SentEmail → Operation
  send_email_tool_once : String → Json → SentEmail → Operation

-- A method that raises has written nothing.
abbrev pub or_unchanged : Database → Result Database → Database
or_unchanged db (ok written) = written
or_unchanged db (raised e) = db

abbrev pub second {ℓ} : {A : Type ℓ} → Result (A × Database) → Result Database
second (ok (a, db)) = ok db
second (raised e) = raised e

unfoldable pub perform : Operation → Database → Database
perform (create_run run_id task) db = (RunRows.create_run run_id task db).1
perform (update_run run_id c) db = or_unchanged db (RunRows.update_run run_id c db)
perform (update_run_and_append_event run_id ty payload c step key) db =
    or_unchanged db (second (RunRows.update_run_and_append_event run_id ty payload c step key db))
perform (append_event run_id ty payload step key) db =
    (EventLog.append_event run_id ty payload step key db).1
perform (save_state state) db = RunRows.save_state state db
perform (record_tool_execution execution) db = SideEffects.record_tool_execution execution db
perform (send_email_once email) db = (SideEffects.send_email_once email db).1
perform (send_email_tool_once call_id arguments email) db =
    (SideEffects.send_email_tool_once call_id arguments email db).1

unfoldable pub perform_all : List Operation → Database → Database
perform_all [] db = db
perform_all (op ∷ ops) db = perform_all ops (perform op db)
