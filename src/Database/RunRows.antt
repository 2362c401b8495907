-- ===== src/Database/RunRows.antt =====
-- agent/run.py, the methods of `AgentDatabase` on the tables `runs` and `run_states`.
use adversarial_agent_runtim.Prelude.{
  ℕ, String, Bool, true, false, Option, none, some, List, [], ◌∷◌, if◌then◌else◌, is_some, or_else,
}
use Prim.Native.String.{◌++◌}
use adversarial_agent_runtim.Json.{Json, str, object}
use adversarial_agent_runtim.Errors.{Result, ok, raise, builtin, ◌>>=◌}
use adversarial_agent_runtim.Table.{find_row, insert_or_ignore, upsert, update_where}
use adversarial_agent_runtim.Database.Schema.{
  RunState, Event, RunStateDto, Database, run_key, state_key,
}
use adversarial_agent_runtim.Database.EventLog.{insert_event_row, insert_event, new_event}

abbrev pub started : String → String → RunState
started run_id task = record {
  run_id = run_id;
  task = task;
  status = "STARTED";
  step_count = 0;
  termination_reason = none;
  pending_tool_calls = [];
}

abbrev pub run_started : String → String → Event
run_started run_id task = record {
  run_id = run_id;
  event_type = "run_started";
  payload = object (("task", str task) ∷ []);
  step = some 0;
  idempotency_key = none;
}

unfoldable pub get_run : String → Database → Option RunState
get_run run_id db = find_row run_key run_id db.runs

-- The run's row and its first event are inserted in one transaction.
unfoldable pub create_run : String → String → Database → Bool × Database
create_run run_id task db =
    let inserted = record db { runs = insert_or_ignore run_key (started run_id task) db.runs } in
    if is_some (get_run run_id db)
    then (false, db)
    else (true, (insert_event_row (run_started run_id task) inserted).1)

-- The keyword arguments of `update_run`; `none` keeps the column.
pub record Changes : Type 0 where
  pub status : Option String
  pub step_count : Option ℕ
  pub termination_reason : Option String
  pub pending_tool_calls : Option (List Json)

abbrev or_keep : Option String → Option String → Option String
or_keep none old = old
or_keep (some s) old = some s

-- next_status, next_step, next_reason and pending, in the row of the run.
abbrev pub changed : Changes → RunState → RunState
changed c current = record {
  run_id = current.run_id;
  task = current.task;
  status = or_else c.status current.status;
  step_count = or_else c.step_count current.step_count;
  termination_reason = or_keep c.termination_reason current.termination_reason;
  pending_tool_calls = or_else c.pending_tool_calls current.pending_tool_calls;
}

-- UPDATE runs SET status, step_count, termination_reason, pending_tool_calls.
abbrev pub set_columns : RunState → RunState → RunState
set_columns next row = record row {
  status = next.status;
  step_count = next.step_count;
  termination_reason = next.termination_reason;
  pending_tool_calls = next.pending_tool_calls;
}

abbrev pub set_state : RunStateDto → RunStateDto → RunStateDto
set_state next row = record row { current_state = next.current_state; step_count = next.step_count }

unfoldable pub save_state : RunStateDto → Database → Database
save_state state db = record db {
  run_states = upsert state_key (set_state state) state db.run_states;
}

-- The two statements of the transaction that `update_run` runs.
unfoldable pub write_run : String → RunState → Database → Database
write_run run_id next db =
    let state : RunStateDto = record {
      run_id = run_id;
      current_state = next.status;
      step_count = next.step_count;
    } in
    save_state state (record db { runs = update_where run_key run_id (set_columns next) db.runs })

-- `raise KeyError(f"Unknown run_id: {run_id}")` for a run that is not there.
abbrev pub or_key_error : String → Option RunState → Result RunState
or_key_error run_id none = raise (builtin "KeyError") ("Unknown run_id: " ++ run_id)
or_key_error run_id (some current) = ok current

unfoldable pub update_run : String → Changes → Database → Result Database
update_run run_id changes db = or_key_error run_id (get_run run_id db) >>= λ current.
    ok (write_run run_id (changed changes current) db)

unfoldable pub update_run_and_append_event :
    String
    → String
    → Json
    → Changes
    → Option ℕ
    → Option String
    → Database
    → Result (Option ℕ × Database)
update_run_and_append_event run_id event_type payload changes step idempotency_key db =
    or_key_error run_id (get_run run_id db) >>= λ current. ok (
      insert_event (new_event run_id event_type payload step idempotency_key)
        (write_run run_id (changed changes current) db))

abbrev pub finished : String → Option ℕ → Changes
finished reason step_count = record {
  status = some "FINISHED";
  step_count = step_count;
  termination_reason = some reason;
  pending_tool_calls = some [];
}

unfoldable pub finish_run : String → String → Option ℕ → Database → Result Database
finish_run run_id reason step_count db =
    update_run_and_append_event run_id "run_finished" (object (("reason", str reason) ∷ []))
      (finished reason step_count) step_count (some (run_id ++ ":run_finished")) db
    >>= λ written. ok written.1
