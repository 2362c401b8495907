-- ===== src/Runtime/RunOne.antt =====
-- `run_one` of `_execute_tool_calls` and `_blocked_tool_result`, agent/runtime.py.
use adversarial_agent_runtim.Prelude.{String, Bool, true, false, ◌&&◌, none, some, ◌==◌}
use adversarial_agent_runtim.Json.{dict}
use adversarial_agent_runtim.Codec.{Codec}
use adversarial_agent_runtim.Database.Schema.{ToolExecution, Database}
use adversarial_agent_runtim.Database.SideEffects.{get_tool_execution, record_tool_execution}
use adversarial_agent_runtim.Response.ToolCalls.{ToolCall}
use adversarial_agent_runtim.Runtime.Keys.{ToolResult, idempotency_key}
use adversarial_agent_runtim.Tools.Host.{Host}
use adversarial_agent_runtim.Tools.Executor.{from_execution, failed_result, execute}

abbrev pub blocked_row : String → ToolCall → String → String → ToolExecution
blocked_row run_id call key error = record {
  idempotency_key = key;
  run_id = run_id;
  tool_call_id = call.id;
  tool_name = call.name;
  arguments = dict call.arguments;
  result = none;
  error = some error;
  status = "blocked";
}

-- `_blocked_tool_result`.
unfoldable pub blocked_tool_result :
    String → ToolCall → String → String → Database → ToolResult × Database
blocked_tool_result run_id call key error db = elim (get_tool_execution key db) [
  | some existing ↦ (from_execution call key existing, db)
  | none ↦
      (failed_result call key error, record_tool_execution (blocked_row run_id call key error) db)
]

abbrev pub email_blocked : String
email_blocked = "SecurityViolationError: send_email blocked after untrusted tool results"

-- The Boolean is `memory.has_untrusted_tool_results()`.
unfoldable pub run_one :
    {W : Type 0}
    → Host W
    → Codec
    → String
    → String
    → Bool
    → ToolCall
    → Database
    → W
    → ToolResult × Database × W
run_one host codec run_id now untrusted call db w =
    let key = idempotency_key codec run_id call in
    elim (call.name == "send_email" && untrusted) [
      | true ↦
          let (result, db') = blocked_tool_result run_id call key email_blocked db in
          (result, db', w)
      | false ↦ execute host run_id now call key db w
    ]
