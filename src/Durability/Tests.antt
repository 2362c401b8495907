-- ===== src/Durability/Tests.antt =====
-- The store's theorems at small databases.
use adversarial_agent_runtim.Prelude.{
  ℕ, suc, ◌++◌, ◌≡◌, refl, Option, none, some, List, [], ◌∷◌, ◌==◌, arith, if◌then◌else◌,
}
use adversarial_agent_runtim.Json.{str, dict, end, object, truthy}
use adversarial_agent_runtim.Errors.{ok}
use adversarial_agent_runtim.Table.{find_row}
use adversarial_agent_runtim.Database.Schema.{SentEmail, Database, empty_database}
use adversarial_agent_runtim.Database.EventLog
use adversarial_agent_runtim.Database.EventLog.{key_recorded}
use adversarial_agent_runtim.Database.RunRows
use adversarial_agent_runtim.Database.RunRows.{Changes, changed, started, get_run}
use adversarial_agent_runtim.Database.SideEffects
use adversarial_agent_runtim.Database.SideEffects.{queued}
use adversarial_agent_runtim.Durability.{
  Operation, create_run, update_run, append_event, send_email_once, send_email_tool_once, perform,
  perform_all,
}
use adversarial_agent_runtim.Durability.Constraints.{IsValid}
use adversarial_agent_runtim.Durability.Valid.{perform_all-IsValid}
use adversarial_agent_runtim.Durability.Append.{Extends, append_event_again, perform_all-Extends}
use adversarial_agent_runtim.Durability.Once.{
  email_with, count_key, first_email, send_email_exactly_once, send_email_reports_first,
}
use adversarial_agent_runtim.Durability.Progress.{update_run_and_append_event_lem}

empty_database-IsValid : IsValid empty_database
empty_database-IsValid = record {
  runs = tt;
  ids = omega arith;
  event_keys = tt;
  executions = tt;
  emails = tt;
  states = tt;
}

abbrev greeting : SentEmail
greeting = record {
  idempotency_key = "k";
  run_id = "r";
  recipient = "a@b.c";
  subject = "hello";
  body = "first";
  created_at = "1.0";
}

abbrev second_greeting : SentEmail
second_greeting = record greeting { body = "second"; created_at = "2.0" }

abbrev advance : Changes
advance = record {
  status = some "CALLING_LLM";
  step_count = some 1;
  termination_reason = none;
  pending_tool_calls = none;
}

abbrev history : List Operation
history =
    create_run "r" "task"
    ∷ update_run "r" advance
    ∷ append_event "r" "tool_result" (object (("ok", str "yes") ∷ [])) (some 1) (some "e")
    ∷ send_email_once second_greeting
    ∷ update_run "unknown" advance
    ∷ []

-- The row of run "r" in a database that holds no other run.
abbrev one_run : Database
one_run = record empty_database { runs = started "r" "task" ∷ [] }

known : get_run "r" one_run ≡ some (started "r" "task")
unfolding get_run find_row
known = refl

perform_all-IsValid_example : IsValid (perform_all history empty_database)
perform_all-IsValid_example = perform_all-IsValid history empty_database empty_database-IsValid

send_email_exactly_once_example :
    let db' =
      perform_all history (perform (send_email_tool_once "c" (dict end) greeting) empty_database) in
    (email_with "k" db' ≡ some (first_email greeting empty_database))
    × (count_key "k" db'.sent_emails ≡ 1)
send_email_exactly_once_example =
    send_email_exactly_once "c" (dict end) greeting history empty_database empty_database-IsValid

send_email_reports_first_example :
    (SideEffects.send_email_once second_greeting
      (perform_all history (perform (send_email_once greeting) empty_database))).0
    ≡ queued (first_email greeting empty_database)
send_email_reports_first_example =
    send_email_reports_first greeting second_greeting history empty_database refl

append_event_again_example :
    let db' =
      perform_all history
        (EventLog.append_event "r" "note" (str "one") (some 1) (some "note") empty_database).1 in
    EventLog.append_event "r" "other" (str "two") none (some "note") db'
    ≡ (none, EventLog.skip_id db')
append_event_again_example =
    append_event_again "r" "note" "r" "other" "note" (str "one") (str "two") (some 1) none history
      empty_database

perform_all-Extends_example :
    Extends empty_database.events (perform_all history empty_database).events
perform_all-Extends_example = perform_all-Extends history empty_database

update_run_and_append_event_lem_example :
    (id : Option ℕ) × (written : Database) × (RunRows.update_run_and_append_event "r" "note"
        (str "payload")
        advance
        (some 1)
        (some "note")
        one_run
      ≡ ok (id, written))
    × (get_run "r" written ≡ (
        if "r" == "r"
        then some (record (started "r" "task") { status = "CALLING_LLM"; step_count = 1 })
        else get_run "r" one_run))
    × (written.events ≡ (
        if key_recorded "note" one_run.events
        then one_run.events
        else one_run.events
          ++ record {
            id = suc one_run.last_event_id;
            event = record {
              run_id = "r";
              event_type = "note";
              payload = if truthy (str "payload") then str "payload" else dict end;
              step = some 1;
              idempotency_key = some "note";
            };
          }
            ∷ []))
update_run_and_append_event_lem_example =
    update_run_and_append_event_lem "r" "note" "note" "r" (str "payload") advance (some 1)
      (started "r" "task") one_run known

unknown : get_run "q" one_run ≡ none
unfolding get_run find_row
unknown = refl
