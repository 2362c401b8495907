-- ===== src/Durability/Valid.antt =====
-- The constraints of the schema of agent/run.py over the operations of the store.
use adversarial_agent_runtim.Prelude.{
  String, refl, List, [], ◌∷◌, inl, inr, Bool-cases, Option-cases, is_some,
}
use adversarial_agent_runtim.Table.{
  update_where, insert_or_ignore, insert_or_ignore-IsUnique, upsert-IsUnique, update_where-IsUnique,
}
use adversarial_agent_runtim.Database.Schema.{
  RunState, RunStateDto, ToolExecution, SentEmail, Database, run_key, execution_key, email_key,
  state_key,
}
use adversarial_agent_runtim.Database.EventLog.{
  has_key, key_recorded, insert_event_row, insert_keyed, insert_event, new_event,
}
use adversarial_agent_runtim.Database.EventLog
use adversarial_agent_runtim.Database.RunRows
use adversarial_agent_runtim.Database.RunRows.{changed, set_columns, set_state, write_run}
use adversarial_agent_runtim.Database.SideEffects
use adversarial_agent_runtim.Database.SideEffects.{set_outcome, insert_email}
use adversarial_agent_runtim.Durability.{
  Operation, create_run, update_run, update_run_and_append_event, append_event, save_state,
  record_tool_execution, send_email_once, send_email_tool_once, perform, perform_all,
}
use adversarial_agent_runtim.Durability.Constraints.{
  IsValid, insert_event_row-IsValid, insert_event-IsValid,
}

insert_run-IsValid :
    (run : RunState) (db : Database)
    → IsValid db
    → IsValid (record db { runs = insert_or_ignore run_key run db.runs })
insert_run-IsValid run db v = record {
  runs = insert_or_ignore-IsUnique run_key run db.runs v.runs;
  ids = v.ids;
  event_keys = v.event_keys;
  executions = v.executions;
  emails = v.emails;
  states = v.states;
}

create_run-IsValid :
    (run_id task : String) (db : Database)
    → IsValid db
    → IsValid (RunRows.create_run run_id task db).1
unfolding RunRows.create_run
create_run-IsValid run_id task db v = elim (Bool-cases (is_some (RunRows.get_run run_id db))) [
  | inl old ↦ rw old v
  | inr new ↦ rw new (
      insert_event_row-IsValid (RunRows.run_started run_id task) _ tt
        (insert_run-IsValid (RunRows.started run_id task) db v))
]

save_state-IsValid :
    (state : RunStateDto) (db : Database) → IsValid db → IsValid (RunRows.save_state state db)
unfolding RunRows.save_state
save_state-IsValid state db v = record {
  runs = v.runs;
  ids = v.ids;
  event_keys = v.event_keys;
  executions = v.executions;
  emails = v.emails;
  states = upsert-IsUnique state_key (set_state state) (λ x. refl) state db.run_states v.states;
}

update_row-IsValid :
    (run_id : String) (next : RunState) (db : Database)
    → IsValid db
    → IsValid (record db { runs = update_where run_key run_id (set_columns next) db.runs })
update_row-IsValid run_id next db v = record {
  runs = update_where-IsUnique run_key (set_columns next) (λ x. refl) run_id db.runs v.runs;
  ids = v.ids;
  event_keys = v.event_keys;
  executions = v.executions;
  emails = v.emails;
  states = v.states;
}

write_run-IsValid :
    (run_id : String) (next : RunState) (db : Database)
    → IsValid db
    → IsValid (write_run run_id next db)
unfolding write_run
write_run-IsValid run_id next db v = save_state-IsValid _ _ (update_row-IsValid run_id next db v)

record_tool_execution-IsValid :
    (execution : ToolExecution) (db : Database)
    → IsValid db
    → IsValid (SideEffects.record_tool_execution execution db)
unfolding SideEffects.record_tool_execution
record_tool_execution-IsValid execution db v = record {
  runs = v.runs;
  ids = v.ids;
  event_keys = v.event_keys;
  executions =
      upsert-IsUnique execution_key (set_outcome execution) (λ x. refl) execution db.tool_executions
        v.executions;
  emails = v.emails;
  states = v.states;
}

insert_email-IsValid :
    (email : SentEmail) (db : Database) → IsValid db → IsValid (insert_email email db)
unfolding insert_email
insert_email-IsValid email db v = record {
  runs = v.runs;
  ids = v.ids;
  event_keys = v.event_keys;
  executions = v.executions;
  emails = insert_or_ignore-IsUnique email_key email db.sent_emails v.emails;
  states = v.states;
}

-- Every operation keeps the constraints of the schema.
pub perform-IsValid : (op : Operation) (db : Database) → IsValid db → IsValid (perform op db)
unfolding perform RunRows.update_run RunRows.update_run_and_append_event EventLog.append_event
    SideEffects.send_email_once SideEffects.send_email_tool_once
perform-IsValid (create_run run_id task) db v = create_run-IsValid run_id task db v
perform-IsValid (update_run run_id c) db v = elim (Option-cases (RunRows.get_run run_id db)) [
  | inl missing ↦ rw missing v
  | inr (current, found) ↦ rw found (write_run-IsValid run_id (changed c current) db v)
]
perform-IsValid (update_run_and_append_event run_id ty payload c step key) db v =
    elim (Option-cases (RunRows.get_run run_id db)) [
      | inl missing ↦ rw missing v
      | inr (current, found) ↦ rw found (
          insert_event-IsValid (new_event run_id ty payload step key) _
            (write_run-IsValid run_id (changed c current) db v))
    ]
perform-IsValid (append_event run_id ty payload step key) db v =
    insert_event-IsValid (new_event run_id ty payload step key) db v
perform-IsValid (save_state state) db v = save_state-IsValid state db v
perform-IsValid (record_tool_execution execution) db v =
    record_tool_execution-IsValid execution db v
perform-IsValid (send_email_once email) db v = insert_email-IsValid email db v
perform-IsValid (send_email_tool_once call_id arguments email) db v =
    record_tool_execution-IsValid _ _ (insert_email-IsValid email db v)

-- Every history of operations on a valid database leaves it valid.
pub perform_all-IsValid :
    (ops : List Operation) (db : Database) → IsValid db → IsValid (perform_all ops db)
unfolding perform_all
perform_all-IsValid [] db v = v
perform_all-IsValid (op ∷ ops) db v =
    perform_all-IsValid ops (perform op db) (perform-IsValid op db v)
