-- ===== src/Durability/Progress.antt =====
-- The checkpoint of a run in agent/run.py: the methods on the table `runs`.
use mathlib.Core.List.{◌++◌ as append}
use Prim.Native.String.{◌++◌}
use adversarial_agent_runtim.Prelude.{
  ℕ, suc, String, ◌≡◌, refl, ap, ◌∙◌, inl, inr, true, not, Option, none, some, [], ◌∷◌, arith, ◌==◌,
  eq_iff, if◌then◌else◌, is_some, or_else,
}
use adversarial_agent_runtim.Json.{Json, str, object, truthy, dict, end}
use adversarial_agent_runtim.Errors.{ok, raise, builtin}
use adversarial_agent_runtim.Table.{find_row-insert_or_ignore, find_row-update_where}
use adversarial_agent_runtim.Database.Schema.{RunState, Event, Database, run_key}
use adversarial_agent_runtim.Database.EventLog.{
  key_recorded, insert_event_row, insert_keyed, insert_event, new_event,
}
use adversarial_agent_runtim.Database.RunRows.{
  Changes, changed, finished, set_columns, get_run, create_run, started, write_run, save_state,
  update_run, update_run_and_append_event, finish_run,
}
use adversarial_agent_runtim.Durability.Constraints.{insert_event_cases}
use adversarial_agent_runtim.Durability.Append.{key_recorded-insert_event}

get_run-insert_event :
    (run_id : String) (e : Event) (db : Database)
    → get_run run_id (insert_event e db).1 ≡ get_run run_id db
unfolding get_run insert_event_row
get_run-insert_event run_id e db = elim (insert_event_cases e db) [
  | inl same ↦ rw same
  | inr (new_row, new) ↦ rw new_row
]

pub get_run-write_run :
    (run_id j : String) (next : RunState) (db : Database)
    → get_run j (write_run run_id next db) ≡ (
        if run_id == j
        then elim (get_run j db) [ none ↦ none | some row ↦ some (set_columns next row) ]
        else get_run j db)
unfolding get_run write_run save_state
get_run-write_run run_id j next db =
    find_row-update_where run_key (set_columns next) (λ x. refl) run_id j db.runs

-- A run is created exactly if it is not there; an existing run, and each other run, stays as it is.
pub get_run-create_run :
    (run_id task j : String) (db : Database)
    → ((create_run run_id task db).0 ≡ not (is_some (get_run run_id db)))
      × (get_run j (create_run run_id task db).1 ≡ (
          if is_some (get_run j db)
          then get_run j db
          else if run_id == j
          then some (started run_id task)
          else none))
unfolding create_run get_run insert_event_row
get_run-create_run run_id task j db =
    ground
      (arith, find_row-insert_or_ignore run_key j (started run_id task) db.runs, eq_iff run_id j)

-- `update_run` of a known run changes the row of that run as its arguments say, and no other run.
pub get_run-update_run :
    (run_id j : String) (c : Changes) (current : RunState) (db : Database)
    → get_run run_id db ≡ some current
    → (written : Database) × (update_run run_id c db ≡ ok written)
      × (get_run j written ≡ (if run_id == j then some (changed c current) else get_run j db))
unfolding update_run
get_run-update_run run_id j c current db found = (
  write_run run_id (changed c current) db,
  rw found,
  ground (arith, get_run-write_run run_id j (changed c current) db, eq_iff run_id j),
)

append_event-with_run :
    (run_id ty k j : String) (payload : Json) (c : Changes) (step : Option ℕ) (current : RunState)
    (db : Database)
    → get_run run_id db ≡ some current
    → (id : Option ℕ) × (written : Database) × (update_run_and_append_event run_id ty payload c step
          (some k)
          db
        ≡ ok (id, written))
      × (get_run j written ≡ (if run_id == j then some (changed c current) else get_run j db))
      × (key_recorded k written.events ≡ true)
unfolding update_run_and_append_event
append_event-with_run run_id ty k j payload c step current db found =
    let e : Event = new_event run_id ty payload step (some k) in
    let advanced : Database = write_run run_id (changed c current) db in
    (
      (insert_event e advanced).0,
      (insert_event e advanced).1,
      rw found,
      rw get_run-insert_event
          (ground (arith, get_run-write_run run_id j (changed c current) db, eq_iff run_id j)),
      key_recorded-insert_event k e advanced refl,
    )

changed-columns :
    (c : Changes) (current : RunState)
    → changed c current ≡ record current {
      status = or_else c.status current.status;
      step_count = or_else c.step_count current.step_count;
      termination_reason = elim c.termination_reason [
        | none ↦ current.termination_reason
        | some reason ↦ some reason
      ];
      pending_tool_calls = or_else c.pending_tool_calls current.pending_tool_calls;
    }
changed-columns c current = by_reason c.termination_reason
  where
    by_reason :
        (reason : Option String)
        → changed (record c { termination_reason = reason }) current ≡ record current {
          status = or_else c.status current.status;
          step_count = or_else c.step_count current.step_count;
          termination_reason = elim reason [
            | none ↦ current.termination_reason
            | some text ↦ some text
          ];
          pending_tool_calls = or_else c.pending_tool_calls current.pending_tool_calls;
        }
    by_reason none = refl
    by_reason (some text) = refl

-- State and event are one transaction: `update_run_and_append_event` of a known run under a key
-- returns; then in the row of the run each column that an argument is given for has that value and
-- the others are as they were, every other run is as it was, and the log has the event at its end,
-- with its type, payload, step and key, or, if the key was recorded before, is as it was.
pub update_run_and_append_event_lem :
    (run_id ty k j : String) (payload : Json) (c : Changes) (step : Option ℕ) (current : RunState)
    (db : Database)
    → get_run run_id db ≡ some current
    → (id : Option ℕ) × (written : Database) × (update_run_and_append_event run_id ty payload c step
          (some k)
          db
        ≡ ok (id, written))
      × (get_run j written ≡ (
          if run_id == j
          then some (record current {
            status = or_else c.status current.status;
            step_count = or_else c.step_count current.step_count;
            termination_reason = elim c.termination_reason [
              | none ↦ current.termination_reason
              | some reason ↦ some reason
            ];
            pending_tool_calls = or_else c.pending_tool_calls current.pending_tool_calls;
          })
          else get_run j db))
      × (written.events ≡ (
          if key_recorded k db.events
          then db.events
          else append db.events (
              record {
                id = suc db.last_event_id;
                event = record {
                  run_id = run_id;
                  event_type = ty;
                  payload = if truthy payload then payload else dict end;
                  step = step;
                  idempotency_key = some k;
                };
              }
              ∷ [])))
unfolding update_run_and_append_event insert_event insert_keyed insert_event_row write_run
    save_state
update_run_and_append_event_lem run_id ty k j payload c step current db found =
    let e : Event = new_event run_id ty payload step (some k) in
    let advanced : Database = write_run run_id (changed c current) db in
    (
      (insert_event e advanced).0,
      (insert_event e advanced).1,
      rw found,
      get_run-insert_event j e advanced
          ∙ ground (arith, get_run-write_run run_id j (changed c current) db, eq_iff run_id j)
          ∙ ap (λ row. if run_id == j then some row else get_run j db) (changed-columns c current),
      ground arith,
    )

-- Finishing a known run leaves it FINISHED with the reason and no pending call, and the log with
-- its `run_finished` key; the other runs stay as they are.
pub finish_run_lem :
    (run_id reason j : String) (step_count : Option ℕ) (current : RunState) (db : Database)
    → get_run run_id db ≡ some current
    → (written : Database) × (finish_run run_id reason step_count db ≡ ok written)
      × (get_run j written ≡ (
          if run_id == j
          then some (record current {
            status = "FINISHED";
            step_count = or_else step_count current.step_count;
            termination_reason = some reason;
            pending_tool_calls = [];
          })
          else get_run j db))
      × (key_recorded (run_id ++ ":run_finished") written.events ≡ true)
unfolding finish_run
finish_run_lem run_id reason j step_count current db found =
    let (id, written, done, row, recorded) =
      append_event-with_run run_id "run_finished" (run_id ++ ":run_finished") j
        (object (("reason", str reason) ∷ [])) (finished reason step_count) step_count current db
        found in
    (written, rw done, row, recorded)

-- A method on a run that is not there raises a KeyError.
pub unknown_run :
    (run_id ty reason : String) (payload : Json) (c : Changes) (step : Option ℕ)
    (key : Option String) (db : Database)
    → get_run run_id db ≡ none
    → (update_run run_id c db ≡ raise (builtin "KeyError") ("Unknown run_id: " ++ run_id))
      × (update_run_and_append_event run_id ty payload c step key db
          ≡ raise (builtin "KeyError") ("Unknown run_id: " ++ run_id))
      × (finish_run run_id reason step db
          ≡ raise (builtin "KeyError") ("Unknown run_id: " ++ run_id))
unfolding update_run update_run_and_append_event finish_run
unknown_run run_id ty reason payload c step key db h = (rw h, rw h, rw h)
