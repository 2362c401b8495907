-- ===== src/Database/EventLog.antt =====
-- agent/run.py, the methods of `AgentDatabase` on the table `events`.
use adversarial_agent_runtim.Prelude.{
  ℕ, suc, String, Bool, false, ◌||◌, Option, none, some, List, [], ◌∷◌, ◌++◌, map, ◌==◌,
  if◌then◌else◌, keep,
}
use adversarial_agent_runtim.Codec.{JsonLoads}
use adversarial_agent_runtim.Json.{Json, str, dict, end, object, truthy}
use adversarial_agent_runtim.Errors.{Result, ok, ◌>>=◌}
use adversarial_agent_runtim.Database.Schema.{Event, EventRow, Database}

-- Some row has this value in the UNIQUE column `idempotency_key`; NULL equals nothing.
abbrev pub has_key : String → Option String → Bool
has_key k none = false
has_key k (some j) = j == k

unfoldable pub key_recorded : String → List EventRow → Bool
key_recorded k [] = false
key_recorded k (row ∷ rows) = has_key k row.event.idempotency_key || key_recorded k rows

-- INSERT INTO events.
unfoldable pub insert_event_row : Event → Database → Option ℕ × Database
insert_event_row event db =
    let id = suc db.last_event_id in
    (
      some id,
      record db {
        events = db.events ++ record { id = id; event = event } ∷ [];
        last_event_id = id;
      },
    )

-- An INSERT OR IGNORE that is ignored has drawn an id from the sequence all the same.
abbrev pub skip_id : Database → Database
skip_id db = record db { last_event_id = suc db.last_event_id }

-- The same rows, with another state of the sequence.
abbrev pub with_ids : ℕ → Database → Database
with_ids n db = record db { last_event_id = n }

-- INSERT where the key is NULL, and else INSERT OR IGNORE; the row id is `none` where nothing was
-- inserted.
unfoldable pub insert_keyed : Option String → Event → Database → Option ℕ × Database
insert_keyed none event db = insert_event_row event db
insert_keyed (some k) event db =
    if key_recorded k db.events then (none, skip_id db) else insert_event_row event db

-- `_insert_event`.
unfoldable pub insert_event : Event → Database → Option ℕ × Database
insert_event event db = insert_keyed event.idempotency_key event db

-- `payload or {}`.
abbrev pub or_empty : Json → Json
or_empty payload = if truthy payload then payload else dict end

abbrev pub new_event : String → String → Json → Option ℕ → Option String → Event
new_event run_id event_type payload step idempotency_key = record {
  run_id = run_id;
  event_type = event_type;
  payload = or_empty payload;
  step = step;
  idempotency_key = idempotency_key;
}

unfoldable pub append_event :
    String → String → Json → Option ℕ → Option String → Database → Option ℕ × Database
append_event run_id event_type payload step idempotency_key db =
    insert_event (new_event run_id event_type payload step idempotency_key) db

-- SELECT * FROM events WHERE run_id = ? ORDER BY id ASC: rows are stored in the order of their ids.
unfoldable pub get_events : String → Database → List Event
get_events run_id db =
    map (λ (row : EventRow). row.event) (keep (λ row. row.event.run_id == run_id) db.events)

last : List Event → Option Event
last [] = none
last (e ∷ []) = some e
last (e ∷ rest) = last rest

pub get_last_state : String → Database → Option Event
unfolding get_events last
get_last_state run_id db = last (get_events run_id db)

-- `save_event`, on an event whose payload may be JSON text. The step of the event is not passed on.
module _ (loads : JsonLoads) where
  unfoldable pub read_payload : Json → Result Json
  read_payload (str text) =
      if text == ""
      then ok (dict end)
      else loads text >>= (λ parsed. elim parsed [
        | none ↦ ok (object (("text", str text) ∷ []))
        | some payload ↦ ok payload
      ])
  read_payload payload = ok payload

  unfoldable pub save_event : Event → Database → Result (Option ℕ × Database)
  save_event event db = read_payload event.payload >>= (λ payload.
      ok (append_event event.run_id event.event_type payload none event.idempotency_key db))

  unfoldable pub log_event : Event → Database → Result (Option ℕ × Database)
  log_event event db = save_event event db
