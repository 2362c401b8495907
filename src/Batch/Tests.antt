-- ===== src/Batch/Tests.antt =====
-- The theorems on batches at three calls.
use adversarial_agent_runtim.Tools.Host.{is_relative_to}
use adversarial_agent_runtim.Tools.Handlers.{confined_path, execute_once, read_file}
use adversarial_agent_runtim.Tools.Executor.{execute, settle}
use adversarial_agent_runtim.Runtime.RunOne.{run_one, blocked_tool_result}
use adversarial_agent_runtim.Text.{decimal}
use adversarial_agent_runtim.Database.EventLog.{
  append_event, insert_event, insert_keyed, key_recorded, insert_event_row,
}
use adversarial_agent_runtim.Stateful.{for_each, and_then}
use adversarial_agent_runtim.Prelude.{String, ◌≡◌, refl, true, false, some, List, [], ◌∷◌, map}
use adversarial_agent_runtim.Errors.{ok, class_name}
use adversarial_agent_runtim.Database.Schema.{empty_database}
use adversarial_agent_runtim.Database.SideEffects.{get_tool_execution, record_tool_execution}
use adversarial_agent_runtim.Table.{find_row, upsert}
use adversarial_agent_runtim.Response.ToolCalls.{ToolCall}
use adversarial_agent_runtim.Runtime.Keys.{ToolResult, idempotency_key, tool_event_key}
use adversarial_agent_runtim.Batch.Samples.{
  naming_codec, bare_disk, read_missing, write_notes, mail, fresh_process, mail_row,
}
use adversarial_agent_runtim.Batch.State.{enumerate, batch_has_failed_result, is_side_effect_tool}
use adversarial_agent_runtim.Batch.Phases.{run_pure_calls, run_pure_call, run_call}
use adversarial_agent_runtim.Batch.Execute.{
  Process, existing_result, calls_to_execute, first_state, execute_tool_calls, log_starts,
}
use adversarial_agent_runtim.Batch.Failed.{execute_tool_calls-failed}
use adversarial_agent_runtim.Batch.Held.{SameEffects}
use adversarial_agent_runtim.Batch.Replayed.{execute_tool_calls-held}

abbrev three_calls : List ToolCall
three_calls = read_missing ∷ write_notes ∷ mail ∷ []

read_fails :
    let first = first_state naming_codec "r" 1 bare_disk (λ i. "1.0") three_calls fresh_process in
    let items = calls_to_execute naming_codec "r" 1 first.db (enumerate 0 three_calls) in
    batch_has_failed_result
      (run_pure_calls bare_disk naming_codec "r" (λ i. "1.0") false items first).1.ordered_results
    ≡ true
unfolding batch_has_failed_result run_pure_calls calls_to_execute for_each get_tool_execution
    find_row log_starts append_event insert_event insert_keyed key_recorded insert_event_row
    tool_event_key decimal idempotency_key is_side_effect_tool run_pure_call run_call run_one
    execute record_tool_execution class_name blocked_tool_result and_then upsert settle
    confined_path execute_once read_file is_relative_to existing_result
read_fails = refl

execute_tool_calls-failed_example :
    let first = first_state naming_codec "r" 1 bare_disk (λ i. "1.0") three_calls fresh_process in
    let items = calls_to_execute naming_codec "r" 1 first.db (enumerate 0 three_calls) in
    let read = (run_pure_calls bare_disk naming_codec "r" (λ i. "1.0") false items first).1 in
    let after =
      (execute_tool_calls naming_codec "r" 1 bare_disk (λ i. "1.0") three_calls fresh_process).1 in
    (after.machine ≡ read.machine) × (after.db.sent_emails ≡ [])
execute_tool_calls-failed_example =
    execute_tool_calls-failed bare_disk naming_codec "r" 1 (λ i. "1.0") three_calls fresh_process
      (λ P items h. h) read_fails

-- The email was sent before the crash.
abbrev resumed_process : Process (List String)
resumed_process = record fresh_process {
  db = record empty_database { tool_executions = mail_row ∷ [] };
}

mail_held :
    get_tool_execution (idempotency_key naming_codec "r" mail) resumed_process.db ≡ some mail_row
unfolding get_tool_execution find_row idempotency_key
mail_held = refl

execute_tool_calls-held_example :
    let (r, p') =
      execute_tool_calls naming_codec "r" 1 bare_disk (λ i. "1.0") (mail ∷ []) resumed_process in
    (p'.machine ≡ [])
    × SameEffects resumed_process.db p'.db
    × ((results : List ToolResult)
        → r ≡ ok results
        → map (existing_result naming_codec "r" 1 resumed_process.db) (mail ∷ [])
          ≡ map some results)
execute_tool_calls-held_example =
    execute_tool_calls-held naming_codec "r" 1 bare_disk (λ i. "1.0") (mail ∷ []) resumed_process
      (λ P items h. h) ((mail_row, mail_held), tt)
