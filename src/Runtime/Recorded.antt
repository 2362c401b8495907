-- ===== src/Runtime/Recorded.antt =====
-- Idempotency keys in the log, as the methods of agent/runtime.py and agent/validate.py use them.
use adversarial_agent_runtim.Prelude.{ℕ, String, ◌≡◌, refl, true, Option, some}
use adversarial_agent_runtim.Json.{Json}
use adversarial_agent_runtim.Database.Schema.{Database}
use adversarial_agent_runtim.Database.EventLog.{key_recorded, append_event, new_event}
use adversarial_agent_runtim.Durability.Append.{
  insert_event-GrowsTo, key_recorded-Extends, key_recorded-insert_event,
}

-- Some event has the key.
abbrev pub Recorded : String → Database → Type 0
Recorded k db = key_recorded k db.events ≡ true

-- An append records its key, and no append forgets one.
pub append_event-Recorded :
    (run_id ty k : String) (payload : Json) (step : Option ℕ) (db : Database)
    → Recorded k (append_event run_id ty payload step (some k) db).1
unfolding append_event
append_event-Recorded run_id ty k payload step db =
    key_recorded-insert_event k (new_event run_id ty payload step (some k)) db refl

pub append_event-keeps :
    (j run_id ty : String) (payload : Json) (step : Option ℕ) (key : Option String) (db : Database)
    → Recorded j db
    → Recorded j (append_event run_id ty payload step key db).1
unfolding append_event
append_event-keeps j run_id ty payload step key db h =
    key_recorded-Extends j db.events (append_event run_id ty payload step key db).1.events
      (insert_event-GrowsTo (new_event run_id ty payload step key) db) h
