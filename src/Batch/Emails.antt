-- ===== src/Batch/Emails.antt =====
-- The table of sent emails in a batch of tool calls, agent/runtime.py.
use adversarial_agent_runtim.Prelude.{
  ℕ, suc, String, Bool, ◌≡◌, refl, ◌∙◌, false, Option, none, some, List, [], ◌∷◌, ◌==◌, any, eqb,
  inl, inr, Bool-cases, Option-cases, is_some,
}
use adversarial_agent_runtim.Json.{Json}
use adversarial_agent_runtim.Errors.{Result, ok, raised}
use adversarial_agent_runtim.Codec.{Codec}
use adversarial_agent_runtim.Stateful.{and_then-keeps}
use adversarial_agent_runtim.Database.Schema.{Database}
use adversarial_agent_runtim.Database.EventLog.{append_event, new_event}
use adversarial_agent_runtim.Database.SideEffects.{get_tool_execution, record_tool_execution}
use adversarial_agent_runtim.Durability.Once.{emails-insert_event}
use adversarial_agent_runtim.Response.ToolCalls.{ToolCall}
use adversarial_agent_runtim.Runtime.Keys.{ToolResult, idempotency_key, tool_result_event_key}
use adversarial_agent_runtim.Runtime.RunOne.{blocked_tool_result, run_one}
use adversarial_agent_runtim.Tools.Host.{Host}
use adversarial_agent_runtim.Tools.Handlers.{execute_once}
use adversarial_agent_runtim.Tools.Executor.{settle, execute}
use adversarial_agent_runtim.Batch.Execute.{
  Process, started_payload, result_payload, started_key, log_starts, final_result, report,
  report_results,
}

pub emails-append_event :
    (run_id ty : String) (payload : Json) (step : Option ℕ) (key : Option String) (db : Database)
    → (append_event run_id ty payload step key db).1.sent_emails ≡ db.sent_emails
unfolding append_event
emails-append_event run_id ty payload step key db =
    emails-insert_event (new_event run_id ty payload step key) db

pub emails-blocked_tool_result :
    (run_id : String) (call : ToolCall) (key error : String) (db : Database)
    → (blocked_tool_result run_id call key error db).1.sent_emails ≡ db.sent_emails
unfolding blocked_tool_result record_tool_execution
emails-blocked_tool_result run_id call key error db =
    elim (Option-cases (get_tool_execution key db)) [
      | inl new ↦ rw (new, blocked_tool_result)
      | inr (row, found) ↦ rw (found, blocked_tool_result)
    ]

emails-settle :
    (run_id : String) (call : ToolCall) (key : String) (outcome : Result Json) (db : Database)
    → (settle run_id call key outcome db).1.sent_emails ≡ db.sent_emails
unfolding settle record_tool_execution
emails-settle run_id call key (ok v) db = refl
emails-settle run_id call key (raised e) db = refl

module _ {W : Type 0} (host : Host W) where
  emails-execute :
      (run_id now : String) (call : ToolCall) (key : String) (db : Database) (w : W)
      → (call.name == "send_email") ≡ false
      → (execute host run_id now call key db w).1.sent_emails ≡ db.sent_emails
  unfolding execute
  emails-execute run_id now call key db w other = elim (Option-cases (get_tool_execution key db)) [
    | inr (row, found) ↦ rw (found, execute)
    | inl new ↦
        rw (new, other, execute) (emails-settle run_id call key (execute_once host call w).0 db)
  ]

  pub emails-run_one :
      (codec : Codec) (run_id now : String) (untrusted : Bool) (call : ToolCall) (db : Database)
      (w : W)
      → (call.name == "send_email") ≡ false
      → (run_one host codec run_id now untrusted call db w).1.sent_emails ≡ db.sent_emails
  unfolding run_one
  emails-run_one codec run_id now untrusted call db w other =
      rw (other, run_one)
        (emails-execute run_id now call (idempotency_key codec run_id call) db w other)

module _ (codec : Codec) (run_id : String) (step : ℕ) where
  pub emails-log_starts :
      (items : List (ℕ × ToolCall)) (db : Database)
      → (log_starts codec run_id step items db).sent_emails ≡ db.sent_emails
  unfolding log_starts
  emails-log_starts [] db = refl
  emails-log_starts ((index, call) ∷ items) db =
      emails-log_starts items _
      ∙ emails-append_event run_id "tool_execution_started" (started_payload call) (some step)
          (some (started_key codec run_id step index call)) db

  emails-final_result :
      (restored : List ℕ) (index : ℕ) (call : ToolCall) (r : ToolResult) (db : Database)
      → (final_result codec run_id step restored index call r db).1.sent_emails ≡ db.sent_emails
  unfolding final_result record_tool_execution
  emails-final_result restored index call r db =
      elim (Bool-cases (any (λ i. eqb i index) restored)) [
        | inl back ↦ rw back
        | inr kept ↦ rw kept
      ]

  module _ {W : Type 0} where
    -- What reporting does not change.
    abbrev pub Untouched : Process W → Process W → Type 0
    Untouched before after =
        (after.machine ≡ before.machine) × (after.db.sent_emails ≡ before.db.sent_emails)

    report-Untouched :
        (index : ℕ) (r : ToolResult) (p : Process W)
        → Untouched p (report codec run_id step index r p).1
    unfolding report
    report-Untouched index r p =
        let key = tool_result_event_key codec run_id step index r in
        let same =
          emails-append_event run_id "tool_result" (result_payload r) (some step) (some key) p.db in
        elim (Bool-cases (
          is_some
            (append_event run_id "tool_result" (result_payload r) (some step) (some key) p.db).0)) [
              | inl new ↦ rw (new, report) (refl, same)
              | inr old ↦ rw (old, report) (refl, same)
            ]

    pub report_results-Untouched :
        (restored : List ℕ) (index : ℕ) (calls : List ToolCall) (slots : List (Option ToolResult))
        (p : Process W)
        → Untouched p (report_results codec run_id step restored index calls slots p).1
    unfolding report_results
    report_results-Untouched restored index [] slots p = (refl, refl)
    report_results-Untouched restored index (call ∷ calls) [] p = (refl, refl)
    report_results-Untouched restored index (call ∷ calls) (none ∷ slots) p =
        report_results-Untouched restored (suc index) calls slots p
    report_results-Untouched restored index (call ∷ calls) (some result ∷ slots) p =
        let (r, db') = final_result codec run_id step restored index call result p.db in
        let corrected : Process W = record p { db = db' } in
        let same = emails-final_result restored index call result p.db in
        let (m, e) = report-Untouched index r corrected in
        and_then-keeps (Untouched p) (report codec run_id step index r corrected) _ (m, e ∙ same)
          (λ _ p' (m', e').
            and_then-keeps (Untouched p)
              (report_results codec run_id step restored (suc index) calls slots p') _
              (let (m2, e2) = report_results-Untouched restored (suc index) calls slots p' in
                (m2 ∙ m', e2 ∙ e'))
              (λ results last h. h))
