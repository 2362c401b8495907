-- ===== src/Loop/Tests.antt =====
-- The theorems on the loop of a run at small runs.
use adversarial_agent_runtim.Loop.Targets.{
  failed_tool_targets, argument_targets, text_arguments, without_repeats,
}
use adversarial_agent_runtim.Database.SideEffects.{get_tool_execution}
use adversarial_agent_runtim.Text.{has_prefix, decimal, lower, occurs, codes, starts}
use adversarial_agent_runtim.Tokenizer.{count_tokens}
use adversarial_agent_runtim.Memory.Manager.{
  ensure_safety_preamble, bounded_from, sync_durable_facts, trim_fact_entries, facts_eq,
}
use adversarial_agent_runtim.Memory.Message.{
  message_token_count, is_safety_preamble, is_durable_facts_message,
}
use adversarial_agent_runtim.Memory.Window.{compact_if_needed}
use adversarial_agent_runtim.Memory.Context.{
  get_compacted_context, selected_facts, context_rounds, checked_context, finish_round,
}
use adversarial_agent_runtim.Database.EventLog.{
  get_events, append_event, insert_event, insert_keyed, key_recorded, insert_event_row,
}
use adversarial_agent_runtim.Runtime.Log.{
  first_payload, event_payload, recorded_response_to_process, has_event,
}
use adversarial_agent_runtim.Runtime.Progress.{
  raise_if_recorded_no_progress, latest_progress_check, log_loop_control,
}
use adversarial_agent_runtim.Prelude.{
  ◌↔◌, String, ◌≡◌, refl, true, false, none, some, List, [], is_some,
}
use adversarial_agent_runtim.Errors.{ok, raised, network_failure_error, is_agent_error}
use adversarial_agent_runtim.Stateful.{and_then}
use adversarial_agent_runtim.Database.Schema.{RunState, Database, empty_database}
use adversarial_agent_runtim.Database.RunRows.{started, get_run, update_run, write_run, save_state}
use adversarial_agent_runtim.Table.{find_row, update_where}
use adversarial_agent_runtim.Runtime.Keys.{
  idempotency_key, event_key, tool_event_key, tool_result_event_key,
}
use adversarial_agent_runtim.Runtime.Pending.{
  recover_pending_tool_calls, calls_from, tool_call_from_dict, is_pending, completes,
}
use adversarial_agent_runtim.Validator.{validate_turn, ask_model}
use adversarial_agent_runtim.Batch.Samples.{naming_codec, mail, mail_row}
use adversarial_agent_runtim.Loop.State.{next_round, Running}
use adversarial_agent_runtim.Loop.Contradiction.{
  claims_success, model_contradiction, is_failure_acknowledgement, latest_failed_tool_results,
  latest_tool_step, failed_at, started_call, contradicted, first_match, matched_targets,
}
use adversarial_agent_runtim.Loop.Turn.{
  recover_pending, start_recovered, take_response, ask, set_run, next_step,
}
use adversarial_agent_runtim.Loop.Iterate.{round, reason_of, attempt, pending_or_model, model_round}
use adversarial_agent_runtim.Loop.Run.{loop, run}
use adversarial_agent_runtim.Loop.Ends.{Ended, loop-Ended}
use adversarial_agent_runtim.Loop.Finished.{HasFinished, run-HasFinished}
use adversarial_agent_runtim.Loop.Caught.{ended_row, loop-caught}
use adversarial_agent_runtim.Loop.Contradicted.{Claims, LatestHasFailed, model_contradiction_iff}
use adversarial_agent_runtim.Loop.Stuck.{IsStuckStore, IsStuck, round-IsStuck, loop-stuck}
use adversarial_agent_runtim.Loop.Samples.{
  failed_log, first_round, row_left, runtime, stuck_db, stuck_state, unreachable,
}

abbrev left : Running (List String) (Unit {0})
left = (attempt runtime "r" "send it" first_round).1

fails :
    (attempt runtime "r" "send it" first_round ≡ (raised unreachable, left))
    × (get_run "r" left.db ≡ some row_left)
unfolding attempt and_then raise_if_recorded_no_progress latest_progress_check first_payload
    get_events recover_pending recover_pending_tool_calls event_payload start_recovered
    pending_or_model model_round take_response recorded_response_to_process ask set_run update_run
    get_run find_row next_step has_event validate_turn ask_model get_compacted_context
    selected_facts context_rounds checked_context finish_round compact_if_needed message_token_count
    ensure_safety_preamble bounded_from sync_durable_facts count_tokens append_event insert_event
    insert_keyed key_recorded insert_event_row is_safety_preamble is_durable_facts_message
    trim_fact_entries facts_eq has_prefix log_loop_control write_run save_state event_key decimal
    update_where
fails = (refl, refl)

is_caught : is_agent_error network_failure_error ≡ true
unfolding is_agent_error
is_caught = refl

abbrev end_row : RunState
end_row = ended_row runtime "r" "send it" row_left left.step (reason_of unreachable)

ends_early :
    (db : Database) × (loop runtime "r" "send it" 1 first_round
      ≡ some (ok (some end_row), record left { db = db }))
ends_early =
    loop-caught runtime "r" "send it" 0 unreachable first_round left row_left refl fails.0 is_caught
      fails.1

loop-caught_example :
    (db : Database) × (loop runtime "r" "send it" 9 first_round
      ≡ some (ok (some end_row), record left { db = db }))
loop-caught_example =
    loop-caught runtime "r" "send it" 8 unreachable first_round left row_left refl fails.0 is_caught
      fails.1

loop-Ended_example :
    Ended runtime "r" "send it" (ok (some end_row)) (record left { db = ends_early.0 })
loop-Ended_example =
    loop-Ended runtime "r" "send it" 1 first_round (record left { db = ends_early.0 })
      (ok (some end_row)) ends_early.1

run-HasFinished_example :
    HasFinished runtime "r" "send it" (run runtime "r" "send it" 3 none empty_database [] tt)
run-HasFinished_example = run-HasFinished runtime "r" "send it" 3 none empty_database [] tt

model_contradiction_iff_example :
    (is_some (model_contradiction naming_codec (λ s. s) failed_log "all completed" 2) ≡ true) ↔ (
      Claims naming_codec (λ s. s) "all completed"
      × LatestHasFailed naming_codec (λ s. s) failed_log 2)
model_contradiction_iff_example =
    model_contradiction_iff naming_codec (λ s. s) failed_log "all completed" 2

contradiction_runs :
    (is_some (model_contradiction naming_codec (λ s. s) failed_log "all completed" 2) ≡ true)
    × (is_some (model_contradiction naming_codec (λ s. s) failed_log "not completed" 2) ≡ false)
unfolding model_contradiction claims_success is_failure_acknowledgement latest_failed_tool_results
    latest_tool_step failed_at started_call contradicted first_match matched_targets
    failed_tool_targets argument_targets text_arguments without_repeats lower occurs codes starts
contradiction_runs = (refl, refl)

stuck_store : IsStuckStore runtime "r" "send it" 2 mail [] stuck_db
unfolding get_run find_row idempotency_key raise_if_recorded_no_progress latest_progress_check
    first_payload get_events recover_pending_tool_calls event_payload calls_from tool_call_from_dict
    is_pending completes key_recorded get_tool_execution tool_event_key tool_result_event_key
    decimal
stuck_store = record {
  progresses = refl;
  unfinished = refl;
  reported = ((mail_row, refl, refl, refl), tt);
  known = (started "r" "send it", refl);
}

stuck : IsStuck runtime "r" "send it" mail [] stuck_state
stuck = record { more = refl; idle = refl; store = stuck_store }

loop-stuck_example : loop runtime "r" "send it" 1000 stuck_state ≡ none
loop-stuck_example =
    loop-stuck runtime "r" "send it" 1000 mail [] stuck_state (λ P items h. h) stuck

-- One round of that loop.
abbrev after_stuck :
    (s' : Running (List String) (Unit {0})) × (round runtime "r" "send it" stuck_state
      ≡ (ok next_round, s'))
    × IsStuck runtime "r" "send it" mail [] s'
after_stuck = round-IsStuck runtime "r" "send it" mail [] stuck_state (λ P items h. h) stuck
