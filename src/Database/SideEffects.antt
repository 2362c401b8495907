-- ===== src/Database/SideEffects.antt =====
-- agent/run.py, the methods of `AgentDatabase` on the tables `tool_executions` and `sent_emails`.
-- `now` is the text of the float that `time.time()` returns.
use adversarial_agent_runtim.Prelude.{
  ℕ, String, Bool, ◌||◌, Option, none, some, [], ◌∷◌, ◌==◌, is_some, or_else, length, keep,
}
use adversarial_agent_runtim.Json.{Json, str, float, dict, end, object}
use adversarial_agent_runtim.Table.{find_row, insert_or_ignore, upsert}
use adversarial_agent_runtim.Database.Schema.{
  ToolExecution, SentEmail, Database, execution_key, email_key,
}

unfoldable pub get_tool_execution : String → Database → Option ToolExecution
get_tool_execution key db = find_row execution_key key db.tool_executions

-- ON CONFLICT(idempotency_key) DO UPDATE SET result_json, error, status.
abbrev pub set_outcome : ToolExecution → ToolExecution → ToolExecution
set_outcome excluded row = record row {
  result = excluded.result;
  error = excluded.error;
  status = excluded.status;
}

unfoldable pub record_tool_execution : ToolExecution → Database → Database
record_tool_execution execution db = record db {
  tool_executions = upsert execution_key (set_outcome execution) execution db.tool_executions;
}

pub mark_key_processed : String → Database → Database
unfolding record_tool_execution
mark_key_processed key db =
    record_tool_execution
      (record {
        idempotency_key = key;
        run_id = "unknown";
        tool_call_id = key;
        tool_name = "unknown";
        arguments = dict end;
        result = some (object (("status", str "processed") ∷ []));
        error = none;
        status = "completed";
      })
      db

-- Also the body of `check_idempotency`.
pub is_key_processed : String → Database → Bool
unfolding get_tool_execution
is_key_processed key db =
    is_some (get_tool_execution key db) || is_some (find_row email_key key db.sent_emails)

-- The dict that reports an email's row.
abbrev pub queued : SentEmail → Json
queued row = object (
    ("status", str "queued")
    ∷ ("idempotency_key", str row.idempotency_key)
    ∷ ("to", str row.recipient)
    ∷ ("subject", str row.subject)
    ∷ ("body", str row.body)
    ∷ ("created_at", float row.created_at)
    ∷ [])

unfoldable pub insert_email : SentEmail → Database → Database
insert_email email db = record db { sent_emails = insert_or_ignore email_key email db.sent_emails }

-- The row that the SELECT after the insert finds under the email's key; there always is one.
unfoldable pub stored_email : SentEmail → Database → SentEmail
stored_email email db = or_else (find_row email_key email.idempotency_key db.sent_emails) email

unfoldable pub send_email_once : SentEmail → Database → Json × Database
send_email_once email db =
    let sent = insert_email email db in (queued (stored_email email sent), sent)

-- The email and the matching tool execution are written in one transaction.
unfoldable pub send_email_tool_once : String → Json → SentEmail → Database → Json × Database
send_email_tool_once tool_call_id arguments email db =
    let (result, sent) = send_email_once email db in
    let execution : ToolExecution = record {
      idempotency_key = email.idempotency_key;
      run_id = email.run_id;
      tool_call_id = tool_call_id;
      tool_name = "send_email";
      arguments = arguments;
      result = some result;
      error = none;
      status = "completed";
    } in
    (result, record_tool_execution execution sent)

-- SELECT COUNT(*), of one run's emails or of all.
pub count_sent_emails : Option String → Database → ℕ
count_sent_emails none db = length db.sent_emails
count_sent_emails (some run_id) db = length (keep (λ row. row.run_id == run_id) db.sent_emails)
