-- ===== src/Batch/Execute.antt =====
-- `_execute_tool_calls` of agent/runtime.py as a whole. The tracer writes to a file of its own and is
-- left out.
use adversarial_agent_runtim.Prelude.{
  ℕ, suc, String, Bool, true, false, Option, none, some, List, [], ◌∷◌, ◌==◌, eqb, map, any, keep,
  is_some, or_else, if◌then◌else◌,
}
use adversarial_agent_runtim.Json.{Json, bool, str, dict, opt_str, object}
use adversarial_agent_runtim.Errors.{ok, raised}
use adversarial_agent_runtim.Codec.{Codec}
use adversarial_agent_runtim.Stateful.{Outcome, and_then}
use adversarial_agent_runtim.Database.Schema.{ToolExecution, Database}
use adversarial_agent_runtim.Database.EventLog.{append_event}
use adversarial_agent_runtim.Database.SideEffects.{get_tool_execution, record_tool_execution}
use adversarial_agent_runtim.Memory.Manager.{MemoryManager, add_tool_result}
use adversarial_agent_runtim.Response.ToolCalls.{ToolCall}
use adversarial_agent_runtim.Runtime.Keys.{
  ToolResult, idempotency_key, tool_event_key, tool_result_event_key,
}
use adversarial_agent_runtim.Runtime.Pending.{as_dict}
use adversarial_agent_runtim.Tools.Executor.{from_execution, stored}
use adversarial_agent_runtim.Batch.State.{Disk, BatchState, enumerate}
use adversarial_agent_runtim.Batch.Phases.{run_pure_calls, run_side_effects}

-- What a batch changes beside its own variables.
pub record Process (W : Type 0) : Type 0 where
  pub db : Database
  pub memory : MemoryManager
  pub machine : W

-- `_tool_result_from_execution`.
abbrev pub tool_result_from_execution : ToolCall → ToolExecution → ToolResult
tool_result_from_execution call existing = from_execution call existing.idempotency_key existing

abbrev pub started_payload : ToolCall → Json
started_payload call = object (("tool_call", as_dict call) ∷ [])

abbrev pub result_payload : ToolResult → Json
result_payload r = object (
    ("tool_call_id", str r.tool_call_id)
    ∷ ("tool_name", str r.tool_name)
    ∷ ("ok", bool r.ok)
    ∷ ("result", r.result)
    ∷ ("error", opt_str r.error)
    ∷ ("idempotency_key", opt_str r.idempotency_key)
    ∷ [])

abbrev pub rollback_error : String
rollback_error = "ToolRolledBackError: write_file rolled back because a sibling side effect failed"

abbrev pub rolled_back : ToolResult → ToolResult
rolled_back r = record r { ok = false; error = some rollback_error }

module _ (codec : Codec) (run_id : String) (step : ℕ) where
  abbrev pub started_key : ℕ → ToolCall → String
  started_key index call =
      tool_event_key run_id "tool_execution_started" step index (idempotency_key codec run_id call)

  -- The loop over the start events.
  unfoldable pub log_starts : List (ℕ × ToolCall) → Database → Database
  log_starts [] db = db
  log_starts ((index, call) ∷ items) db =
      let (inserted, logged) =
        append_event run_id "tool_execution_started" (started_payload call) (some step)
          (some (started_key index call)) db in
      log_starts items logged

  -- `existing_results`, as the slots of `ordered_results`.
  unfoldable pub existing_result : Database → ToolCall → Option ToolResult
  existing_result db call = elim (get_tool_execution (idempotency_key codec run_id call) db) [
    | some existing ↦ some (tool_result_from_execution call existing)
    | none ↦ none
  ]

  -- `calls_to_execute`.
  unfoldable pub calls_to_execute : Database → List (ℕ × ToolCall) → List (ℕ × ToolCall)
  calls_to_execute db items =
      keep
        (λ item.
          if is_some (get_tool_execution (idempotency_key codec run_id item.1) db)
          then false
          else true)
        items

  -- `result.idempotency_key or self._idempotency_key(...)`; an empty key counts as none.
  abbrev pub execution_key_of : ToolCall → ToolResult → String
  execution_key_of call r =
      let key = or_else r.idempotency_key "" in
      if key == "" then idempotency_key codec run_id call else key

  abbrev pub rolled_back_row : ToolCall → ToolResult → ToolExecution
  rolled_back_row call r = record {
    idempotency_key = execution_key_of call r;
    run_id = run_id;
    tool_call_id = r.tool_call_id;
    tool_name = r.tool_name;
    arguments = dict call.arguments;
    result = stored r.result;
    error = some rollback_error;
    status = "failed";
  }

  -- The result that is reported for a slot, and the store with the corrected row of a write that
  -- was rolled back.
  unfoldable pub final_result :
      List ℕ → ℕ → ToolCall → ToolResult → Database → ToolResult × Database
  final_result restored index call r db =
      if any (λ i. eqb i index) restored
      then (rolled_back r, record_tool_execution (rolled_back_row call r) db)
      else (r, db)

  module _ {W : Type 0} where
    -- The event of one result; it is remembered only when the event is new.
    unfoldable pub report : ℕ → ToolResult → Process W → Outcome (Unit {0}) (Process W)
    report index r p =
        let (inserted, logged) =
          append_event run_id "tool_result" (result_payload r) (some step)
            (some (tool_result_event_key codec run_id step index r)) p.db in
        let (added, remembered) =
          add_tool_result codec.stable_json r.tool_name (result_payload r) p.memory in
        if is_some inserted
        then (added, record p { db = logged; memory = remembered })
        else (ok tt, record p { db = logged })

    -- The loop over `enumerate(ordered_results)`, beside the calls of the same indices.
    unfoldable pub report_results :
        List ℕ
        → ℕ
        → List ToolCall
        → List (Option ToolResult)
        → Process W
        → Outcome (List ToolResult) (Process W)
    report_results restored index (call ∷ calls) (some result ∷ slots) p =
        let (r, db') = final_result restored index call result p.db in
        and_then (report index r (record p { db = db' })) (λ _ p'.
          and_then (report_results restored (suc index) calls slots p')
            (λ results last. (ok (r ∷ results), last)))
    report_results restored index (call ∷ calls) (none ∷ slots) p =
        report_results restored (suc index) calls slots p
    report_results restored index calls slots p = (ok [], p)

  module _ {W : Type 0} (disk : Disk W) (now : ℕ → String) where
    -- The variables of the batch when the calls begin.
    abbrev pub first_state : List ToolCall → Process W → BatchState W
    first_state calls p =
        let db = log_starts (enumerate 0 calls) p.db in
        record {
          db = db;
          machine = p.machine;
          ordered_results = map (existing_result db) calls;
          write_preimages = [];
          restored_write_indexes = [];
        }

    -- The three phases.
    unfoldable pub run_phases :
        Bool → List (ℕ × ToolCall) → BatchState W → Outcome (Unit {0}) (BatchState W)
    run_phases untrusted items s =
        and_then (run_pure_calls disk codec run_id now untrusted items s)
          (λ _ read. run_side_effects disk codec run_id now untrusted items read)

    abbrev pub with_batch : BatchState W → Process W → Process W
    with_batch s p = record p { db = s.db; machine = s.machine }

    -- What follows the phases.
    unfoldable pub after_phases :
        List ToolCall
        → Process W
        → Outcome (Unit {0}) (BatchState W)
        → Outcome (List ToolResult) (Process W)
    after_phases calls p (raised e, s) = (raised e, with_batch s p)
    after_phases calls p (ok _, s) =
        report_results s.restored_write_indexes 0 calls s.ordered_results (with_batch s p)

    -- `_execute_tool_calls`.
    unfoldable pub execute_tool_calls :
        List ToolCall → Process W → Outcome (List ToolResult) (Process W)
    execute_tool_calls calls p =
        let first = first_state calls p in
        after_phases calls p (
          run_phases p.memory.has_tool_result_data (calls_to_execute first.db (enumerate 0 calls))
            first)
