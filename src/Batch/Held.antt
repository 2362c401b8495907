-- ===== src/Batch/Held.antt =====
-- The parts of a batch whose calls have recorded executions, `_execute_tool_calls` of
-- agent/runtime.py.
use adversarial_agent_runtim.Prelude.{
  ℕ, suc, String, ◌≡◌, refl, ap, ◌∙◌, Option, none, some, List, [], ◌∷◌, map, All, length, arith,
  inl, inr, Bool-cases, is_some,
}
use adversarial_agent_runtim.Json.{Json}
use adversarial_agent_runtim.Errors.{Result, ok}
use adversarial_agent_runtim.Codec.{Codec}
use adversarial_agent_runtim.Stateful.{and_then-keeps, and_then_returns}
use adversarial_agent_runtim.Database.Schema.{Event, ToolExecution, Database}
use adversarial_agent_runtim.Database.EventLog.{
  append_event, new_event, insert_event, insert_event_row,
}
use adversarial_agent_runtim.Database.SideEffects.{get_tool_execution}
use adversarial_agent_runtim.Durability.Constraints.{insert_event_cases}
use adversarial_agent_runtim.Response.ToolCalls.{ToolCall}
use adversarial_agent_runtim.Runtime.Keys.{ToolResult, idempotency_key, tool_result_event_key}
use adversarial_agent_runtim.Batch.State.{enumerate}
use adversarial_agent_runtim.Batch.Execute.{
  Process, tool_result_from_execution, started_payload, result_payload, started_key, log_starts,
  existing_result, calls_to_execute, final_result, report, report_results,
}

-- The tables of executions and of emails are the same.
abbrev pub SameEffects : Database → Database → Type 0
SameEffects before after =
    (after.tool_executions ≡ before.tool_executions) × (after.sent_emails ≡ before.sent_emails)

SameEffects-trans : (a b c : Database) → SameEffects a b → SameEffects b c → SameEffects a c
SameEffects-trans a b c (p, q) (p', q') = (p' ∙ p, q' ∙ q)

insert_event-SameEffects : (e : Event) (db : Database) → SameEffects db (insert_event e db).1
unfolding insert_event_row
insert_event-SameEffects e db = elim (insert_event_cases e db) [
  | inl same ↦ rw same (refl, refl)
  | inr (new_row, new) ↦ rw new_row (refl, refl)
]

append_event-SameEffects :
    (run_id ty : String) (payload : Json) (step : Option ℕ) (key : Option String) (db : Database)
    → SameEffects db (append_event run_id ty payload step key db).1
unfolding append_event
append_event-SameEffects run_id ty payload step key db =
    insert_event-SameEffects (new_event run_id ty payload step key) db

module _ (codec : Codec) (run_id : String) (step : ℕ) where
  -- Every call has a row in the store.
  abbrev pub AllHeld : List ToolCall → Database → Type 0
  AllHeld calls db =
      All
        (λ call.
          (row : ToolExecution) × (get_tool_execution (idempotency_key codec run_id call) db
            ≡ some row))
        calls

  pub log_starts-SameEffects :
      (items : List (ℕ × ToolCall)) (db : Database)
      → SameEffects db (log_starts codec run_id step items db)
  unfolding log_starts
  log_starts-SameEffects [] db = (refl, refl)
  log_starts-SameEffects ((index, call) ∷ items) db =
      let logged =
        (append_event run_id "tool_execution_started" (started_payload call) (some step)
          (some (started_key codec run_id step index call)) db).1 in
      SameEffects-trans db logged (log_starts codec run_id step items logged)
        (append_event-SameEffects run_id "tool_execution_started" (started_payload call) (some step)
          (some (started_key codec run_id step index call)) db)
        (log_starts-SameEffects items logged)

  pub AllHeld-log_starts :
      (items : List (ℕ × ToolCall)) (calls : List ToolCall) (db : Database)
      → AllHeld calls db
      → AllHeld calls (log_starts codec run_id step items db)
  unfolding get_tool_execution
  AllHeld-log_starts items calls db held = rw ((log_starts-SameEffects items db).0) held

  pub nothing_to_execute :
      (db : Database) (i : ℕ) (calls : List ToolCall)
      → AllHeld calls db
      → calls_to_execute codec run_id step db (enumerate i calls) ≡ []
  unfolding calls_to_execute
  nothing_to_execute db i [] held = refl
  nothing_to_execute db i (call ∷ calls) ((row, found), held) =
      rw found (nothing_to_execute db (suc i) calls held)

  pub held_slots :
      (db : Database) (calls : List ToolCall)
      → AllHeld calls db
      → (rs : List ToolResult) × (map (existing_result codec run_id step db) calls ≡ map some rs)
        × (length calls ≡ length rs)
  unfolding existing_result
  held_slots db [] held = ([], refl, refl)
  held_slots db (call ∷ calls) ((row, found), held) =
      let (rs, e, same) = held_slots db calls held in
      (tool_result_from_execution call row ∷ rs, rw (found, existing_result, e), ap suc same)

  module _ {W : Type 0} where
    -- Reporting changes neither the machine nor the executions and the emails.
    abbrev pub NoEffect : Process W → Process W → Type 0
    NoEffect before after = (after.machine ≡ before.machine) × SameEffects before.db after.db

    report-NoEffect :
        (index : ℕ) (r : ToolResult) (p : Process W)
        → NoEffect p (report codec run_id step index r p).1
    unfolding report
    report-NoEffect index r p =
        let key = tool_result_event_key codec run_id step index r in
        let same =
          append_event-SameEffects run_id "tool_result" (result_payload r) (some step) (some key)
            p.db in
        elim (Bool-cases (
          is_some
            (append_event run_id "tool_result" (result_payload r) (some step) (some key) p.db).0)) [
              | inl new ↦ rw (new, report) (refl, same)
              | inr old ↦ rw (old, report) (refl, same)
            ]

    pub report_results-NoEffect :
        (index : ℕ) (calls : List ToolCall) (slots : List (Option ToolResult)) (p : Process W)
        → NoEffect p (report_results codec run_id step [] index calls slots p).1
    unfolding report_results final_result
    report_results-NoEffect index [] slots p = (refl, (refl, refl))
    report_results-NoEffect index (call ∷ calls) [] p = (refl, (refl, refl))
    report_results-NoEffect index (call ∷ calls) (none ∷ slots) p =
        report_results-NoEffect (suc index) calls slots p
    report_results-NoEffect index (call ∷ calls) (some r ∷ slots) p =
        and_then-keeps (NoEffect p) (report codec run_id step index r p) _
          (report-NoEffect index r p)
          (λ _ p' (m', e').
            and_then-keeps (NoEffect p)
              (report_results codec run_id step [] (suc index) calls slots p') _
              (let (m2, e2) = report_results-NoEffect (suc index) calls slots p' in
                (m2 ∙ m', (e2.0 ∙ e'.0, e2.1 ∙ e'.1)))
              (λ results last h. h))

    -- The results of a batch that returns are those of its slots.
    pub report_results-all :
        (index : ℕ) (calls : List ToolCall) (rs found : List ToolResult) (p : Process W)
        → length calls ≡ length rs
        → (report_results codec run_id step [] index calls (map some rs) p).0 ≡ ok found
        → Path (Result (List ToolResult)) (ok rs) (ok found)
    unfolding report_results final_result
    report_results-all index [] [] found p same h = h
    report_results-all index [] (r ∷ rs) found p same h = ground (arith, same)
    report_results-all index (call ∷ calls) [] found p same h = ground (arith, same)
    report_results-all index (call ∷ calls) (r ∷ rs) found p same h =
        let (_, reported, rest) = and_then_returns (report codec run_id step index r p) _ found h in
        let p' = (report codec run_id step index r p).1 in
        let (later, given, last) =
          and_then_returns (report_results codec run_id step [] (suc index) calls (map some rs) p')
            _ found rest in
        both later (report_results-all (suc index) calls rs later p' (omega (arith, same)) given)
          last
      where
        both :
            (later : List ToolResult)
            → Path (Result (List ToolResult)) (ok rs) (ok later)
            → Path (Result (List ToolResult)) (ok (r ∷ later)) (ok found)
            → Path (Result (List ToolResult)) (ok (r ∷ rs)) (ok found)
        both later e last = cc
