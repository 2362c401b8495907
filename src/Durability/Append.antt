-- ===== src/Durability/Append.antt =====
-- The growth of the log of agent/run.py, and idempotency keys over a history.
use mathlib.Core.Path.{subst}
use adversarial_agent_runtim.Prelude.{
  ℕ, String, ◌≡◌, refl, sym, ap, ◌∙◌, inl, inr, Bool-cases, Option-cases, true, Option, none, some,
  List, [], ◌∷◌, ◌++◌, append-nil, append_assoc, arith, eq_refl, is_some,
}
use adversarial_agent_runtim.Json.{Json}
use adversarial_agent_runtim.Database.Schema.{Event, EventRow, RunState, Database}
use adversarial_agent_runtim.Database.EventLog
use adversarial_agent_runtim.Database.EventLog.{
  skip_id, key_recorded, insert_event_row, insert_keyed, insert_event, new_event,
}
use adversarial_agent_runtim.Database.RunRows
use adversarial_agent_runtim.Database.RunRows.{Changes, changed, write_run}
use adversarial_agent_runtim.Database.SideEffects
use adversarial_agent_runtim.Durability.{
  Operation, create_run, update_run, update_run_and_append_event, append_event, or_unchanged,
  second, perform, perform_all,
}
use adversarial_agent_runtim.Durability.Constraints.{key_recorded-append, insert_event_cases}

-- `new` is the log `old` with more rows behind it.
abbrev pub Extends : List EventRow → List EventRow → Type 0
Extends old new = (more : List EventRow) × (new ≡ old ++ more)

abbrev pub GrowsTo : Database → Database → Type 0
GrowsTo db written = Extends db.events written.events

Extends-refl : (rows : List EventRow) → Extends rows rows
Extends-refl rows = ([], sym (append-nil rows))

Extends-trans : (a : List EventRow) {b c : List EventRow} → Extends a b → Extends b c → Extends a c
Extends-trans a (m, p) (n, q) = (m ++ n, q ∙ ap (λ rows. rows ++ n) p ∙ append_assoc a m n)

pub insert_event-GrowsTo : (e : Event) (db : Database) → GrowsTo db (insert_event e db).1
unfolding insert_event_row
insert_event-GrowsTo e db = elim (insert_event_cases e db) [
  | inl same ↦ rw same (Extends-refl db.events)
  | inr (new_row, new) ↦ rw new_row (_, refl)
]

events-write_run :
    (run_id : String) (next : RunState) (db : Database)
    → (write_run run_id next db).events ≡ db.events
unfolding write_run RunRows.save_state
events-write_run run_id next db = refl

update_and_append-GrowsTo :
    (run_id : String) (next : RunState) (e : Event) (db : Database)
    → GrowsTo db (insert_event e (write_run run_id next db)).1
unfolding write_run RunRows.save_state
update_and_append-GrowsTo run_id next e db =
    rw (events-write_run run_id next db) at (insert_event-GrowsTo e (write_run run_id next db))

create_run-GrowsTo :
    (run_id task : String) (db : Database) → GrowsTo db (RunRows.create_run run_id task db).1
unfolding RunRows.create_run insert_event_row
create_run-GrowsTo run_id task db = elim (Bool-cases (is_some (RunRows.get_run run_id db))) [
  | inl old ↦ rw old (Extends-refl db.events)
  | inr new ↦ rw new (_, refl)
]

update_run-GrowsTo :
    (run_id : String) (c : Changes) (db : Database)
    → GrowsTo db (or_unchanged db (RunRows.update_run run_id c db))
unfolding RunRows.update_run
update_run-GrowsTo run_id c db = elim (Option-cases (RunRows.get_run run_id db)) [
  | inl missing ↦ rw missing (Extends-refl db.events)
  | inr (current, found) ↦ rw (found, events-write_run) (Extends-refl db.events)
]

update_run_and_append_event-GrowsTo :
    (run_id ty : String) (payload : Json) (c : Changes) (step : Option ℕ) (key : Option String)
    (db : Database)
    → GrowsTo db (
        or_unchanged db
          (second (RunRows.update_run_and_append_event run_id ty payload c step key db)))
unfolding RunRows.update_run_and_append_event
update_run_and_append_event-GrowsTo run_id ty payload c step key db =
    elim (Option-cases (RunRows.get_run run_id db)) [
      | inl missing ↦ rw missing (Extends-refl db.events)
      | inr (current, found) ↦ rw found (
          update_and_append-GrowsTo run_id (changed c current)
            (new_event run_id ty payload step key) db)
    ]

-- No operation removes, changes or reorders an event: the log only grows at its end.
pub perform-Extends : (op : Operation) (db : Database) → Extends db.events (perform op db).events
unfolding perform RunRows.save_state EventLog.append_event SideEffects.record_tool_execution
    SideEffects.send_email_once SideEffects.send_email_tool_once SideEffects.insert_email
perform-Extends (create_run run_id task) db = create_run-GrowsTo run_id task db
perform-Extends (update_run run_id c) db = update_run-GrowsTo run_id c db
perform-Extends (update_run_and_append_event run_id ty payload c step key) db =
    update_run_and_append_event-GrowsTo run_id ty payload c step key db
perform-Extends (append_event run_id ty payload step key) db =
    insert_event-GrowsTo (new_event run_id ty payload step key) db
perform-Extends _ db = Extends-refl db.events

-- Over any history the log only grows at its end.
pub perform_all-Extends :
    (ops : List Operation) (db : Database) → Extends db.events (perform_all ops db).events
unfolding perform_all
perform_all-Extends [] db = Extends-refl db.events
perform_all-Extends (op ∷ ops) db =
    Extends-trans db.events (perform-Extends op db) (perform_all-Extends ops (perform op db))

pub key_recorded-Extends :
    (k : String) (old new : List EventRow)
    → Extends old new
    → key_recorded k old ≡ true
    → key_recorded k new ≡ true
key_recorded-Extends k old new (more, e) h = rw (e, key_recorded-append k old more, h)

insert_keyed-records :
    (k : String) (e : Event) (db : Database)
    → e.idempotency_key ≡ some k
    → key_recorded k (insert_keyed (some k) e db).1.events ≡ true
unfolding insert_keyed insert_event_row key_recorded
insert_keyed-records k e db h = elim (Bool-cases (key_recorded k db.events)) [
  | inl old ↦ ground arith
  | inr new ↦ rw (new, key_recorded-append) (ground (arith, eq_refl k))
]

pub key_recorded-insert_event :
    (k : String) (e : Event) (db : Database)
    → e.idempotency_key ≡ some k
    → key_recorded k (insert_event e db).1.events ≡ true
unfolding insert_event
key_recorded-insert_event k e db h =
    subst (λ key. key_recorded k (insert_keyed key e db).1.events ≡ true) (sym h)
      (insert_keyed-records k e db h)

pub append_event_recorded :
    (run_id ty k : String) (payload : Json) (step : Option ℕ) (db : Database)
    → key_recorded k db.events ≡ true
    → EventLog.append_event run_id ty payload step (some k) db ≡ (none, skip_id db)
unfolding EventLog.append_event insert_event insert_keyed
append_event_recorded run_id ty k payload step db h = rw h

-- After one append under a key, a second one under that key reports `none` and stores nothing: only
-- the sequence of ids moves by one, whatever the payload, and whatever was done to the database in
-- between.
pub append_event_again :
    (run_id ty run_id' ty' k : String) (payload payload' : Json) (step step' : Option ℕ)
    (ops : List Operation) (db : Database)
    → let db' = perform_all ops (EventLog.append_event run_id ty payload step (some k) db).1 in
      EventLog.append_event run_id' ty' payload' step' (some k) db' ≡ (none, skip_id db')
unfolding EventLog.append_event
append_event_again run_id ty run_id' ty' k payload payload' step step' ops db =
    let first : Database = (EventLog.append_event run_id ty payload step (some k) db).1 in
    append_event_recorded run_id' ty' k payload' step' (perform_all ops first) (
      key_recorded-Extends k first.events (perform_all ops first).events
        (perform_all-Extends ops first)
        (key_recorded-insert_event k (new_event run_id ty payload step (some k)) db refl))
