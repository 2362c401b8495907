-- ===== src/Durability/Once.antt =====
-- Emails in agent/run.py: the rows of `sent_emails` over a history.
use adversarial_agent_runtim.Prelude.{
  ℕ, String, ◌≡◌, refl, ap, inl, inr, Option-cases, Option, none, some, List, [], ◌∷◌, arith, ◌==◌,
  eq_iff, eq_refl, or_else, length, keep,
}
use adversarial_agent_runtim.Json.{Json}
use adversarial_agent_runtim.Table.{find_row, IsUnique, find_row-insert_or_ignore}
use adversarial_agent_runtim.Database.Schema.{Event, RunState, SentEmail, Database, email_key}
use adversarial_agent_runtim.Database.EventLog
use adversarial_agent_runtim.Database.EventLog.{insert_event_row, insert_event}
use adversarial_agent_runtim.Database.RunRows
use adversarial_agent_runtim.Database.RunRows.{Changes}
use adversarial_agent_runtim.Database.SideEffects
use adversarial_agent_runtim.Database.SideEffects.{queued, stored_email, insert_email}
use adversarial_agent_runtim.Durability.{
  Operation, create_run, update_run, update_run_and_append_event, append_event, send_email_once,
  send_email_tool_once, or_unchanged, second, perform, perform_all,
}
use adversarial_agent_runtim.Durability.Constraints.{IsValid, insert_event_cases}
use adversarial_agent_runtim.Durability.Valid.{perform-IsValid, perform_all-IsValid}

abbrev pub email_with : String → Database → Option SentEmail
email_with k db = find_row email_key k db.sent_emails

-- How many rows have the key.
abbrev pub count_key : String → List SentEmail → ℕ
count_key k rows = length (keep (λ row. row.idempotency_key == k) rows)

-- The row that the key has once `email` was sent: the old one, if there is one.
abbrev pub first_email : SentEmail → Database → SentEmail
first_email email db = or_else (email_with email.idempotency_key db) email

pub emails-insert_event :
    (e : Event) (db : Database) → (insert_event e db).1.sent_emails ≡ db.sent_emails
unfolding insert_event_row
emails-insert_event e db = elim (insert_event_cases e db) [
  | inl same ↦ rw same
  | inr (new_row, new) ↦ rw new_row
]

count_key_absent :
    (k : String) (rows : List SentEmail) → find_row email_key k rows ≡ none → count_key k rows ≡ 0
unfolding find_row
count_key_absent k [] h = refl
count_key_absent k (row ∷ rows) h = ground (arith, count_key_absent k rows)

count_key_present :
    (k : String) (row : SentEmail) (rows : List SentEmail)
    → IsUnique email_key rows
    → find_row email_key k rows ≡ some row
    → count_key k rows ≡ 1
unfolding find_row
count_key_present k row [] u h = cc
count_key_present k row (x ∷ rows) u h =
    ground
      (arith, count_key_present k row rows u.1, count_key_absent k rows, eq_iff x.idempotency_key k)

insert_email-keeps :
    (k : String) (row email : SentEmail) (db : Database)
    → email_with k db ≡ some row
    → email_with k (insert_email email db) ≡ some row
unfolding insert_email
insert_email-keeps k row email db h =
    rw (find_row-insert_or_ignore email_key k email db.sent_emails, h)

insert_email-stores :
    (email : SentEmail) (db : Database)
    → email_with email.idempotency_key (insert_email email db) ≡ some (first_email email db)
unfolding insert_email
insert_email-stores email db = ground (
  arith,
  find_row-insert_or_ignore email_key email.idempotency_key email db.sent_emails,
  eq_refl email.idempotency_key,
)

emails-create_run :
    (run_id task : String) (db : Database)
    → (RunRows.create_run run_id task db).1.sent_emails ≡ db.sent_emails
unfolding RunRows.create_run insert_event_row
emails-create_run run_id task db = ground arith

emails-write_run :
    (run_id : String) (next : RunState) (db : Database)
    → (RunRows.write_run run_id next db).sent_emails ≡ db.sent_emails
unfolding RunRows.write_run RunRows.save_state
emails-write_run run_id next db = refl

emails-update_run :
    (run_id : String) (c : Changes) (db : Database)
    → (or_unchanged db (RunRows.update_run run_id c db)).sent_emails ≡ db.sent_emails
unfolding RunRows.update_run
emails-update_run run_id c db = elim (Option-cases (RunRows.get_run run_id db)) [
  | inl missing ↦ rw missing
  | inr (current, found) ↦ rw (found, emails-write_run)
]

emails-update_run_and_append_event :
    (run_id ty : String) (payload : Json) (c : Changes) (step : Option ℕ) (key : Option String)
    (db : Database)
    → (or_unchanged db
        (second (RunRows.update_run_and_append_event run_id ty payload c step key db))).sent_emails
      ≡ db.sent_emails
unfolding RunRows.update_run_and_append_event
emails-update_run_and_append_event run_id ty payload c step key db =
    elim (Option-cases (RunRows.get_run run_id db)) [
      | inl missing ↦ rw missing
      | inr (current, found) ↦ rw (found, emails-insert_event, emails-write_run)
    ]

-- No operation changes or removes the email row of a key.
perform-keeps :
    (k : String) (row : SentEmail) (op : Operation) (db : Database)
    → email_with k db ≡ some row
    → email_with k (perform op db) ≡ some row
unfolding perform RunRows.save_state EventLog.append_event SideEffects.record_tool_execution
    SideEffects.send_email_once SideEffects.send_email_tool_once
perform-keeps k row (create_run run_id task) db h = rw emails-create_run h
perform-keeps k row (update_run run_id c) db h = rw emails-update_run h
perform-keeps k row (update_run_and_append_event run_id ty payload c step key) db h =
    rw emails-update_run_and_append_event h
perform-keeps k row (append_event run_id ty payload step key) db h = rw emails-insert_event h
perform-keeps k row (send_email_once email) db h = insert_email-keeps k row email db h
perform-keeps k row (send_email_tool_once call_id arguments email) db h =
    insert_email-keeps k row email db h
perform-keeps k row _ db h = h

perform_all-keeps :
    (k : String) (row : SentEmail) (ops : List Operation) (db : Database)
    → email_with k db ≡ some row
    → email_with k (perform_all ops db) ≡ some row
unfolding perform_all
perform_all-keeps k row [] db h = h
perform_all-keeps k row (op ∷ ops) db h =
    perform_all-keeps k row ops (perform op db) (perform-keeps k row op db h)

-- In a valid database: however often a logical email is sent, by whichever processes, and whatever
-- else is done to the database, there is exactly one row with its key, the first one that was written.
pub send_email_exactly_once :
    (call_id : String) (arguments : Json) (email : SentEmail) (ops : List Operation) (db : Database)
    → IsValid db
    → let db' = perform_all ops (perform (send_email_tool_once call_id arguments email) db) in
      (email_with email.idempotency_key db' ≡ some (first_email email db))
      × (count_key email.idempotency_key db'.sent_emails ≡ 1)
unfolding perform SideEffects.send_email_once SideEffects.send_email_tool_once
    SideEffects.record_tool_execution
send_email_exactly_once call_id arguments email ops db v =
    let sent : Database = perform (send_email_tool_once call_id arguments email) db in
    let kept =
      perform_all-keeps email.idempotency_key (first_email email db) ops sent
        (insert_email-stores email db) in
    (
      kept,
      count_key_present email.idempotency_key (first_email email db)
          (perform_all ops sent).sent_emails
          (perform_all-IsValid ops sent
            (perform-IsValid (send_email_tool_once call_id arguments email) db v)).emails
          kept,
    )

stored_email_kept :
    (k : String) (row again : SentEmail) (db : Database)
    → again.idempotency_key ≡ k
    → email_with k db ≡ some row
    → stored_email again (insert_email again db) ≡ row
unfolding stored_email
stored_email_kept k row again db same h = ground (arith, insert_email-keeps k row again db h)

-- After an email was sent, each later send under its key reports the row that the first left,
-- whatever email it was called with and whatever was done in between.
pub send_email_reports_first :
    (first again : SentEmail) (ops : List Operation) (db : Database)
    → again.idempotency_key ≡ first.idempotency_key
    → (SideEffects.send_email_once again (perform_all ops (perform (send_email_once first) db))).0
      ≡ queued (first_email first db)
unfolding perform SideEffects.send_email_once stored_email
send_email_reports_first first again ops db same =
    let sent : Database = perform (send_email_once first) db in
    ap queued (
      stored_email_kept first.idempotency_key (first_email first db) again (perform_all ops sent)
        same
        (perform_all-keeps first.idempotency_key (first_email first db) ops sent
          (insert_email-stores first db)))
