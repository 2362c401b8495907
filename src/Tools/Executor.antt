-- ===== src/Tools/Executor.antt =====
-- agent/executer.py, `ToolExecutor`.
use Prim.Native.String.{◌++◌}
use adversarial_agent_runtim.Prelude.{
  String, Bool, true, false, ◌&&◌, Option, none, some, ◌==◌, or_else,
}
use adversarial_agent_runtim.Json.{Json, null, str, dict}
use adversarial_agent_runtim.Errors.{Result, ok, raised, class_name}
use adversarial_agent_runtim.Database.Schema.{ToolExecution, SentEmail, Database}
use adversarial_agent_runtim.Database.SideEffects.{
  get_tool_execution, record_tool_execution, send_email_tool_once,
}
use adversarial_agent_runtim.Response.ToolCalls.{ToolCall}
use adversarial_agent_runtim.Runtime.Keys.{ToolResult}
use adversarial_agent_runtim.Tools.Host.{Host}
use adversarial_agent_runtim.Tools.Handlers.{argument_of, execute_once}

-- `not error`.
abbrev pub no_error : Option String → Bool
no_error none = true
no_error (some e) = e == ""

-- The result of a call whose execution is recorded.
abbrev pub from_execution : ToolCall → String → ToolExecution → ToolResult
from_execution call key existing = record {
  tool_call_id = call.id;
  tool_name = call.name;
  ok = existing.status == "completed" && no_error existing.error;
  result = or_else existing.result null;
  error = existing.error;
  idempotency_key = some key;
}

-- NULL stands for None.
abbrev pub stored : Json → Option Json
stored null = none
stored v = some v

-- The row that is recorded for a call that returned, and for one that raised.
abbrev pub completed_row : String → ToolCall → String → Json → ToolExecution
completed_row run_id call key v = record {
  idempotency_key = key;
  run_id = run_id;
  tool_call_id = call.id;
  tool_name = call.name;
  arguments = dict call.arguments;
  result = stored v;
  error = none;
  status = "completed";
}

abbrev pub failed_row : String → ToolCall → String → String → ToolExecution
failed_row run_id call key error = record {
  idempotency_key = key;
  run_id = run_id;
  tool_call_id = call.id;
  tool_name = call.name;
  arguments = dict call.arguments;
  result = none;
  error = some error;
  status = "failed";
}

abbrev pub succeeded : ToolCall → String → Json → ToolResult
succeeded call key v = record {
  tool_call_id = call.id;
  tool_name = call.name;
  ok = true;
  result = v;
  error = none;
  idempotency_key = some key;
}

abbrev pub failed_result : ToolCall → String → String → ToolResult
failed_result call key error = record {
  tool_call_id = call.id;
  tool_name = call.name;
  ok = false;
  result = null;
  error = some error;
  idempotency_key = some key;
}

-- What `execute` does with the outcome of `_execute_once`.
unfoldable pub settle : String → ToolCall → String → Result Json → Database → ToolResult × Database
settle run_id call key (ok v) db =
    (succeeded call key v, record_tool_execution (completed_row run_id call key v) db)
settle run_id call key (raised e) db =
    let error : String = class_name e.class ++ ": " ++ e.message in
    (failed_result call key error, record_tool_execution (failed_row run_id call key error) db)

-- The three values, if all of them are texts.
unfoldable pub email_texts : Json → Json → Json → Option (String × String × String)
email_texts (str to) (str subject) (str body) = some (to, subject, body)
email_texts to subject body = none

abbrev pub email_of : String → String → String → String × String × String → SentEmail
email_of run_id now key (to, subject, body) = record {
  idempotency_key = key;
  run_id = run_id;
  recipient = to;
  subject = subject;
  body = body;
  created_at = now;
}

abbrev pub email_argument_error : String
email_argument_error = "ToolArgumentError: to, subject, and body must be strings"

-- `_execute_send_email_once`; `now` is the time of the insert.
unfoldable pub execute_send_email_once :
    String → String → ToolCall → String → Database → ToolResult × Database
execute_send_email_once run_id now call key db =
    elim (email_texts (argument_of "to" call.arguments) (argument_of "subject" call.arguments)
      (argument_of "body" call.arguments)) [
        | none ↦ (
          failed_result call key email_argument_error,
          record_tool_execution (failed_row run_id call key email_argument_error) db,
        )
        | some texts ↦
            let (result, sent) =
              send_email_tool_once call.id (dict call.arguments) (email_of run_id now key texts)
                db in
            (succeeded call key result, sent)
      ]

-- `ToolExecutor.execute`.
unfoldable pub execute :
    {W : Type 0}
    → Host W
    → String
    → String
    → ToolCall
    → String
    → Database
    → W
    → ToolResult × Database × W
execute host run_id now call key db w = elim (get_tool_execution key db) [
  | some existing ↦ (from_execution call key existing, db, w)
  | none ↦ elim (call.name == "send_email") [
    | true ↦
        let (result, sent) = execute_send_email_once run_id now call key db in (result, sent, w)
    | false ↦
        let (outcome, w') = execute_once host call w in
        let (result, recorded) = settle run_id call key outcome db in (result, recorded, w')
  ]
]
