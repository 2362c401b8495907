-- ===== src/Runtime/Appended.antt =====
-- What a run reads back from its log after it has appended an event, agent/runtime.py.
use mathlib.Core.List.{map-append, reverse-append}
use adversarial_agent_runtim.Prelude.{
  ℕ, String, Bool, false, ◌≡◌, Option, some, List, [], ◌∷◌, ◌++◌, reverse, keep-append, ◌==◌,
  eq_refl, if◌then◌else◌,
}
use adversarial_agent_runtim.Json.{Json}
use adversarial_agent_runtim.Database.Schema.{Event, EventRow, Database}
use adversarial_agent_runtim.Database.EventLog.{
  key_recorded, insert_event_row, insert_keyed, insert_event, append_event, new_event, get_events,
}
use adversarial_agent_runtim.Runtime.Log.{first_payload}

get_events-insert_event_row :
    (event : Event) (db : Database)
    → get_events event.run_id (insert_event_row event db).1
      ≡ get_events event.run_id db ++ event ∷ []
unfolding get_events insert_event_row
get_events-insert_event_row event db =
    rw
      (
        keep-append (λ (row : EventRow). row.event.run_id == event.run_id) db.events,
        eq_refl event.run_id,
      )
      (map-append (λ (row : EventRow). row.event) _ _)

-- An event under a new key is the last that its run reads.
pub get_events-append_event :
    (run_id event_type k : String) (payload : Json) (step : Option ℕ) (db : Database)
    → key_recorded k db.events ≡ false
    → get_events run_id (append_event run_id event_type payload step (some k) db).1
      ≡ get_events run_id db ++ new_event run_id event_type payload step (some k) ∷ []
unfolding append_event insert_event insert_keyed
get_events-append_event run_id event_type k payload step db new =
    rw new (get_events-insert_event_row (new_event run_id event_type payload step (some k)) db)

pub first_payload-append_one :
    (test : Event → Bool) (events : List Event) (event : Event)
    → first_payload test (reverse (events ++ event ∷ []))
      ≡ (if test event then some event.payload else first_payload test (reverse events))
unfolding first_payload
first_payload-append_one test events event = rw (reverse-append events (event ∷ []))
