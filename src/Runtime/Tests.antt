-- ===== src/Runtime/Tests.antt =====
-- The theorems on the run's decisions at a small log.
use adversarial_agent_runtim.Prelude.{
  String, true, List, any, some, suc, ◌≡◌, ◌+◌, refl, false, none, [], ◌∷◌, arith, leb,
  if◌then◌else◌,
}
use adversarial_agent_runtim.Json.{Json, ℤ, pos, Fields, fields, str, object}
use adversarial_agent_runtim.Errors.{Result, ok, raise, builtin, no_progress_error}
use adversarial_agent_runtim.Codec.{Codec}
use adversarial_agent_runtim.Tokenizer.{count_tokens}
use adversarial_agent_runtim.Database.Schema.{Database, Event, empty_database}
use adversarial_agent_runtim.Database.EventLog.{
  insert_event, insert_keyed, insert_event_row, key_recorded, append_event, get_events,
}
use adversarial_agent_runtim.Response.ToolCalls.{ToolCall}
use adversarial_agent_runtim.Table.{find_row}
use adversarial_agent_runtim.Database.SideEffects.{get_tool_execution}
use adversarial_agent_runtim.Tools.Host.{Host, timed_out}
use adversarial_agent_runtim.Runtime.RunOne.{run_one}
use adversarial_agent_runtim.Runtime.Blocked.{run_one-blocked}
use adversarial_agent_runtim.Runtime.Config.{RunLimits}
use adversarial_agent_runtim.Runtime.Keys.{ToolResult, idempotency_key, tool_progress_digest}
use adversarial_agent_runtim.Runtime.Log.{event_payload, first_payload}
use adversarial_agent_runtim.Runtime.Budget.{add_nat, charge_budget, cost_from, cost_so_far}
use adversarial_agent_runtim.Runtime.Progress.{check_progress, raise_if_recorded_no_progress}
use adversarial_agent_runtim.Runtime.Pending.{
  parsed_payload, is_result_at, completes, is_pending, tool_call_from_dict, calls_from,
  recover_pending_tool_calls,
}
use adversarial_agent_runtim.Runtime.Finished.{OtherKeys, recover-result}
use adversarial_agent_runtim.Batch.Execute.{result_payload}
use adversarial_agent_runtim.Batch.Samples.{naming_codec}
use adversarial_agent_runtim.Runtime.Recovered.{recover-append_event}
use adversarial_agent_runtim.Runtime.Charged.{charge_budget-once, cost_so_far-charge_budget}
use adversarial_agent_runtim.Runtime.Repeats.{
  count_here, recorded-check_progress, check_progress-counts,
}

abbrev plain_codec : Codec
plain_codec = record {
  stable_json = λ v. "{}";
  sha256 = λ s. s;
  repr = λ v. "value";
  lower = λ s. s;
}

abbrev no_conversion : Json → Result ℤ
no_conversion v = raise (builtin "TypeError") "int() argument"

abbrev limits : RunLimits
limits = record { cost_budget_tokens = 100; no_progress_limit = 2 }

abbrev reply : Json
reply = object (("message", str "done") ∷ [])

abbrev read : ToolCall
read = record {
  id = "c1";
  name = "read_file";
  arguments = fields (("path", str "a") ∷ []);
  raw_arguments = object [];
}

abbrev read_again : ToolCall
read_again = record read { id = "c2" }

uncharged : event_payload (get_events "r" empty_database) "budget_charged" 1 ≡ none
unfolding event_payload first_payload get_events
uncharged = refl

charge_budget-once_example :
    let first =
      charge_budget plain_codec no_conversion limits "r" 7 reply (pos 0) 1 empty_database in
    charge_budget plain_codec no_conversion limits "r" 9 reply (pos 50) 1 first.1 ≡ first
unfolding key_recorded
charge_budget-once_example =
    charge_budget-once plain_codec no_conversion limits "r" 7 9 reply reply (pos 0) (pos 50) 1
      empty_database uncharged refl

charged :
    (charge_budget plain_codec no_conversion limits "r" 7 reply (pos 0) 1 empty_database).0
    ≡ ok (pos 9)
unfolding charge_budget event_payload first_payload get_events count_tokens
charged = refl

nothing_charged :
    cost_so_far plain_codec no_conversion limits (get_events "r" empty_database) ≡ ok (pos 0)
unfolding cost_so_far cost_from get_events
nothing_charged = refl

cost_so_far-charge_budget_example :
    cost_so_far plain_codec no_conversion limits (
      get_events "r"
        (charge_budget plain_codec no_conversion limits "r" 7 reply (pos 0) 1 empty_database).1)
    ≡ ok (add_nat (pos 0) (7 + count_tokens "{}"))
unfolding key_recorded
cost_so_far-charge_budget_example =
    cost_so_far-charge_budget plain_codec no_conversion limits "r" 7 reply (pos 0) 1 empty_database
      uncharged refl nothing_charged

recorded-check_progress_example :
    let (outcome, logged) = check_progress plain_codec limits "r" (read ∷ []) 1 empty_database in
    raise_if_recorded_no_progress plain_codec limits (get_events "r" logged) ≡ outcome
unfolding key_recorded
recorded-check_progress_example =
    recorded-check_progress plain_codec limits "r" (read ∷ []) 1 empty_database refl

same_batch :
    tool_progress_digest plain_codec (read_again ∷ [])
    ≡ tool_progress_digest plain_codec (read ∷ [])
unfolding tool_progress_digest
same_batch = refl

check_progress-counts_example :
    let logged = (check_progress plain_codec limits "r" (read ∷ []) 1 empty_database).1 in
    (check_progress plain_codec limits "r" (read_again ∷ []) 2 logged).0 ≡ (
      if leb 2 (suc (count_here plain_codec limits "r" (read ∷ []) 1 empty_database))
      then raise no_progress_error "same tool call repeated without progress"
      else ok tt)
unfolding key_recorded
check_progress-counts_example =
    check_progress-counts plain_codec limits "r" (read ∷ []) 1 empty_database (read_again ∷ []) 2
      refl same_batch (omega arith)

abbrev no_dict : Json → Result Fields
no_dict v = raise (builtin "TypeError") "cannot convert"

nothing_done : any (is_result_at plain_codec no_dict 1) (get_events "r" empty_database) ≡ false
unfolding get_events
nothing_done = refl

recover-append_event_example :
    let recorded =
      (append_event "r" "tool_calls_parsed"
        (parsed_payload (read ∷ read_again ∷ []))
        (some 1)
        (some "r:tool_calls_parsed:1")
        empty_database).1 in
    recover_pending_tool_calls plain_codec no_dict "r" (get_events "r" recorded) 1
    ≡ ok (read ∷ read_again ∷ [])
unfolding key_recorded
recover-append_event_example =
    recover-append_event plain_codec no_dict "r" "r:tool_calls_parsed:1" (read ∷ read_again ∷ []) 1
      empty_database refl nothing_done

-- Two calls of different tools are recorded, and the result of the first is appended.
abbrev other_call : ToolCall
other_call = record read { id = "c9"; name = "http_get" }

abbrev both_recorded : Database
both_recorded = record empty_database {
  events =
      record {
        id = 1;
        event = record {
          run_id = "r";
          event_type = "tool_calls_parsed";
          payload = parsed_payload (read ∷ other_call ∷ []);
          step = some 1;
          idempotency_key = some "p";
        };
      }
      ∷ [];
  last_event_id = 1;
}

abbrev read_key : String
read_key = idempotency_key naming_codec "r" read

abbrev read_result : ToolResult
read_result = record {
  tool_call_id = "c1";
  tool_name = "read_file";
  ok = true;
  result = str "text";
  error = none;
  idempotency_key = some read_key;
}

recovers_other :
    recover_pending_tool_calls naming_codec no_dict "r"
      (get_events "r"
        (append_event "r" "tool_result"
          (result_payload read_result)
          (some 1)
          (some "e")
          both_recorded).1)
      1
    ≡ ok (other_call ∷ [])
unfolding recover_pending_tool_calls event_payload first_payload calls_from tool_call_from_dict
    is_pending completes idempotency_key append_event insert_event insert_keyed insert_event_row
    key_recorded get_events
recovers_other = refl

recover-result_example : OtherKeys naming_codec no_dict "r" read_key (other_call ∷ [])
unfolding key_recorded
recover-result_example =
    recover-result naming_codec no_dict "r" "e" read_key read_result 1 both_recorded
      (other_call ∷ []) refl refl recovers_other

abbrev parsed_log : List Event
parsed_log =
    record {
      run_id = "r";
      event_type = "tool_calls_parsed";
      payload = parsed_payload (read ∷ read_again ∷ []);
      step = some 1;
      idempotency_key = none;
    }
    ∷ record {
      run_id = "r";
      event_type = "tool_result";
      payload = object (("tool_call_id", str "c1") ∷ []);
      step = some 1;
      idempotency_key = none;
    }
    ∷ []

recovery_runs :
    recover_pending_tool_calls plain_codec no_dict "r" parsed_log 1 ≡ ok (read_again ∷ [])
unfolding recover_pending_tool_calls event_payload first_payload calls_from tool_call_from_dict
    is_pending completes idempotency_key
recovery_runs = refl

-- A machine on which every path is in the workspace and nothing changes.
abbrev still_machine : Host (Unit {0})
still_machine = record {
  root = [];
  allow_hosts = [];
  timeout_text = "timeout after 5s";
  resolve = λ path w. ok (path ∷ []);
  read_text = λ p w. ok "text";
  write_text = λ p content w. (ok tt, w);
  run_child = λ code w. (ok (timed_out none), w);
  parse_url = λ url. ok ("", none);
  fetch = λ url w. (ok "page", w);
}

abbrev mail : ToolCall
mail = record {
  id = "c3";
  name = "send_email";
  arguments = fields (("to", str "a") ∷ ("subject", str "b") ∷ ("body", str "c") ∷ []);
  raw_arguments = object [];
}

not_executed : get_tool_execution (idempotency_key plain_codec "r" mail) empty_database ≡ none
unfolding get_tool_execution find_row
not_executed = refl

run_one-blocked_example :
    let (r, db', w') = run_one still_machine plain_codec "r" "1.0" true mail empty_database tt in
    (r.ok ≡ false)
    × (db'.sent_emails ≡ [])
    × (w' ≡ tt)
    × (run_one still_machine plain_codec "r" "2.0" false mail db' tt ≡ (r, db', tt))
run_one-blocked_example =
    run_one-blocked still_machine plain_codec "r" "1.0" "2.0" mail empty_database tt tt refl
      not_executed
