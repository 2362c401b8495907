-- ===== src/Tools/Recorded.antt =====
-- Recorded outcomes in `ToolExecutor.execute`, agent/executer.py.
use adversarial_agent_runtim.Prelude.{
  String, ◌≡◌, refl, ap, ◌∙◌, inl, inr, none, some, ◌==◌, eq_refl, arith, Bool-cases, Option-cases,
  or_else,
}
use adversarial_agent_runtim.Json.{Json, null, bool, int, float, str, list, dict}
use adversarial_agent_runtim.Errors.{Result, ok, raised}
use adversarial_agent_runtim.Table.{find_row-upsert}
use adversarial_agent_runtim.Database.Schema.{ToolExecution, SentEmail, Database, execution_key}
use adversarial_agent_runtim.Database.SideEffects.{
  get_tool_execution, set_outcome, insert_email, record_tool_execution, send_email_once,
  send_email_tool_once,
}
use adversarial_agent_runtim.Response.ToolCalls.{ToolCall}
use adversarial_agent_runtim.Runtime.Keys.{ToolResult}
use adversarial_agent_runtim.Tools.Host.{Host}
use adversarial_agent_runtim.Tools.Handlers.{argument_of, execute_once}
use adversarial_agent_runtim.Tools.Executor.{
  from_execution, stored, completed_row, failed_row, succeeded, failed_result, settle, email_texts,
  email_of, email_argument_error, execute_send_email_once, execute,
}

-- A result as another call under the same key reports it.
abbrev pub reported_to : ToolCall → ToolResult → ToolResult
reported_to call r = record r { tool_call_id = call.id; tool_name = call.name }

-- The row under the key reports this result to every call.
abbrev pub Holds : String → ToolResult → Database → Type 0
Holds key r db =
    (row : ToolExecution) × (get_tool_execution key db ≡ some row)
    × ((call : ToolCall) → from_execution call key row ≡ reported_to call r)

pub get-record :
    (row : ToolExecution) (db : Database)
    → get_tool_execution row.idempotency_key db ≡ none
    → get_tool_execution row.idempotency_key (record_tool_execution row db) ≡ some row
unfolding get_tool_execution record_tool_execution
get-record row db new = ground (
  arith,
  find_row-upsert execution_key (set_outcome row) (λ x. refl) row.idempotency_key row
      db.tool_executions,
  eq_refl row.idempotency_key,
  new,
)

stored-back : (v : Json) → or_else (stored v) null ≡ v
stored-back null = refl
stored-back (bool b) = refl
stored-back (int i) = refl
stored-back (float r) = refl
stored-back (str s) = refl
stored-back (list vs) = refl
stored-back (dict d) = refl

completed-Holds :
    (run_id : String) (call : ToolCall) (key : String) (v : Json) (db : Database)
    → get_tool_execution key db ≡ none
    → Holds key (succeeded call key v) (record_tool_execution (completed_row run_id call key v) db)
completed-Holds run_id call key v db new = (
  completed_row run_id call key v,
  get-record (completed_row run_id call key v) db new,
  λ again. rw (stored-back v),
)

failed-Holds :
    (run_id : String) (call : ToolCall) (key error : String) (db : Database)
    → get_tool_execution key db ≡ none
    → Holds key
        (failed_result call key error)
        (record_tool_execution (failed_row run_id call key error) db)
failed-Holds run_id call key error db new = (
  failed_row run_id call key error,
  get-record (failed_row run_id call key error) db new,
  λ again. refl,
)

settle-Holds :
    (run_id : String) (call : ToolCall) (key : String) (outcome : Result Json) (db : Database)
    → get_tool_execution key db ≡ none
    → let (r, recorded) = settle run_id call key outcome db in Holds key r recorded
unfolding settle
settle-Holds run_id call key (ok v) db new = completed-Holds run_id call key v db new
settle-Holds run_id call key (raised e) db new = failed-Holds run_id call key _ db new

-- The email tool records its execution together with the email.
sent-Holds :
    (run_id now : String) (call : ToolCall) (key : String) (texts : String × String × String)
    (db : Database)
    → get_tool_execution key db ≡ none
    → let (v, sent) =
        send_email_tool_once call.id (dict call.arguments) (email_of run_id now key texts) db in
      Holds key (succeeded call key v) sent
unfolding send_email_tool_once send_email_once insert_email get_tool_execution
sent-Holds run_id now call key (to, subject, body) db new =
    let email : SentEmail = email_of run_id now key (to, subject, body) in
    let (v, sent) = send_email_once email db in
    let row : ToolExecution = record {
      idempotency_key = key;
      run_id = run_id;
      tool_call_id = call.id;
      tool_name = "send_email";
      arguments = dict call.arguments;
      result = some v;
      error = none;
      status = "completed";
    } in
    (row, get-record row sent new, λ again. refl)

send-Holds :
    (run_id now : String) (call : ToolCall) (key : String) (db : Database)
    → get_tool_execution key db ≡ none
    → let (r, sent) = execute_send_email_once run_id now call key db in Holds key r sent
unfolding execute_send_email_once
send-Holds run_id now call key db new =
    elim (Option-cases (
      email_texts (argument_of "to" call.arguments) (argument_of "subject" call.arguments)
        (argument_of "body" call.arguments))) [
          | inl refused ↦
              rw (refused, execute_send_email_once)
                (failed-Holds run_id call key email_argument_error db new)
          | inr (texts, given) ↦
              rw (given, execute_send_email_once) (sent-Holds run_id now call key texts db new)
        ]

module _ {W : Type 0} (host : Host W) where
  pub held :
      (run_id now : String) (call : ToolCall) (key : String) (row : ToolExecution) (db : Database)
      (w : W)
      → get_tool_execution key db ≡ some row
      → execute host run_id now call key db w ≡ (from_execution call key row, db, w)
  unfolding execute
  held run_id now call key row db w found = rw (found, execute)

  execute-Holds :
      (run_id now : String) (call : ToolCall) (key : String) (db : Database) (w : W)
      → let (r, db', w') = execute host run_id now call key db w in Holds key r db'
  unfolding execute
  execute-Holds run_id now call key db w = elim (Option-cases (get_tool_execution key db)) [
    | inr (row, found) ↦ rw (found, execute) (row, found, λ again. refl)
    | inl new ↦ elim (Bool-cases (call.name == "send_email")) [
      | inl email ↦ rw (new, email, execute) (send-Holds run_id now call key db new)
      | inr other ↦
          rw (new, other, execute)
            (settle-Holds run_id call key (execute_once host call w).0 db new)
    ]
  ]

  -- When a call was executed, then as long as the row under its key stays as it was left, whatever
  -- else happens to the database, a call under the same key gets its result, with its own id and
  -- name, and changes neither the database nor the machine: no tool runs again.
  pub execute-once :
      (run_id now later : String) (call again : ToolCall) (key : String) (db db2 : Database)
      (w w2 : W)
      → let (r, db', w') = execute host run_id now call key db w in
        get_tool_execution key db2 ≡ get_tool_execution key db'
        → execute host run_id later again key db2 w2 ≡ (reported_to again r, db2, w2)
  execute-once run_id now later call again key db db2 w w2 kept =
      let (row, found, reports) = execute-Holds run_id now call key db w in
      held run_id later again key row db2 w2 (kept ∙ found) ∙ ap (λ x. (x, db2, w2)) (reports again)
