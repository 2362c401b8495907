-- ===== src/Batch/Reported.antt =====
-- A batch whose events are all recorded, `_execute_tool_calls` of agent/runtime.py.
use adversarial_agent_runtim.Prelude.{ℕ, suc, String, ◌≡◌, refl, ap, ◌∙◌, some, List, [], ◌∷◌, map}
use adversarial_agent_runtim.Errors.{ok}
use adversarial_agent_runtim.Codec.{Codec}
use adversarial_agent_runtim.Stateful.{Outcome, and_then}
use adversarial_agent_runtim.Database.Schema.{ToolExecution, Database}
use adversarial_agent_runtim.Database.EventLog.{skip_id, with_ids}
use adversarial_agent_runtim.Database.SideEffects.{get_tool_execution}
use adversarial_agent_runtim.Durability.Append.{append_event_recorded}
use adversarial_agent_runtim.Response.ToolCalls.{ToolCall}
use adversarial_agent_runtim.Runtime.Keys.{ToolResult, idempotency_key, tool_result_event_key}
use adversarial_agent_runtim.Runtime.Recorded.{Recorded}
use adversarial_agent_runtim.Batch.State.{Disk, enumerate}
use adversarial_agent_runtim.Batch.Execute.{
  Process, tool_result_from_execution, started_payload, result_payload, started_key, log_starts,
  existing_result, final_result, report, report_results, execute_tool_calls,
}
use adversarial_agent_runtim.Batch.Waiting.{Reorders}
use adversarial_agent_runtim.Batch.Held.{AllHeld}
use adversarial_agent_runtim.Batch.Replayed.{straight_to_report}

module _ (codec : Codec) (run_id : String) (step : ℕ) where
  -- The call with this index has an execution, and the keys of its two events are recorded.
  abbrev pub ReportedCall : ℕ → ToolCall → Database → Type 0
  ReportedCall index call db =
      (row : ToolExecution) × (get_tool_execution (idempotency_key codec run_id call) db ≡ some row)
      × Recorded (started_key codec run_id step index call) db
      × Recorded
          (tool_result_event_key codec run_id step index (tool_result_from_execution call row)) db

  abbrev pub AllReported : ℕ → List ToolCall → Database → Type 0
  AllReported index [] db = Unit
  AllReported index (call ∷ calls) db =
      ReportedCall index call db × AllReported (suc index) calls db

  AllReported-AllHeld :
      (index : ℕ) (calls : List ToolCall) (db : Database)
      → AllReported index calls db
      → AllHeld codec run_id step calls db
  AllReported-AllHeld index [] db h = tt
  AllReported-AllHeld index (call ∷ calls) db ((row, found, _, _), h) =
      ((row, found), AllReported-AllHeld (suc index) calls db h)

  pub AllReported-with_ids :
      (n index : ℕ) (calls : List ToolCall) (db : Database)
      → AllReported index calls db
      → AllReported index calls (with_ids n db)
  unfolding get_tool_execution
  AllReported-with_ids n index [] db h = tt
  AllReported-with_ids n index (call ∷ calls) db (h, rest) =
      (h, AllReported-with_ids n (suc index) calls db rest)

  log_starts-reported :
      (index : ℕ) (calls : List ToolCall) (db : Database)
      → AllReported index calls db
      → (n : ℕ) × (log_starts codec run_id step (enumerate index calls) db ≡ with_ids n db)
  unfolding log_starts
  log_starts-reported index [] db h = (db.last_event_id, refl)
  log_starts-reported index (call ∷ calls) db ((row, found, begun, done), h) =
      let ignored =
        append_event_recorded run_id "tool_execution_started"
          (started_key codec run_id step index call) (started_payload call) (some step) db begun in
      let (n, same) =
        log_starts-reported (suc index) calls (skip_id db)
          (AllReported-with_ids (suc db.last_event_id) (suc index) calls db h) in
      (n, rw (ignored, log_starts) same)

  module _ {W : Type 0} where
    abbrev renumbered : ℕ → Process W → Process W
    renumbered n p = record p { db = with_ids n p.db }

    report-Recorded :
        (index : ℕ) (r : ToolResult) (p : Process W)
        → Recorded (tool_result_event_key codec run_id step index r) p.db
        → report codec run_id step index r p ≡ (ok tt, record p { db = skip_id p.db })
    unfolding report
    report-Recorded index r p done = rw (
      append_event_recorded run_id "tool_result" (tool_result_event_key codec run_id step index r)
          (result_payload r) (some step) p.db done,
      report,
    )

    report_results-reported :
        (index : ℕ) (calls : List ToolCall) (p : Process W)
        → AllReported index calls p.db
        → (rs : List ToolResult) × (n : ℕ) × (report_results codec run_id step [] index calls
              (map (existing_result codec run_id step p.db) calls)
              p
            ≡ (ok rs, renumbered n p))
    unfolding report_results final_result existing_result and_then get_tool_execution
    report_results-reported index [] p h = ([], p.db.last_event_id, refl)
    report_results-reported index (call ∷ calls) p ((row, found, _, done), h) =
        let (rs, n, e) =
          report_results-reported (suc index) calls (record p { db = skip_id p.db })
            (AllReported-with_ids (suc p.db.last_event_id) (suc index) calls p.db h) in
        (
          tool_result_from_execution call row ∷ rs,
          n,
          rw (
            found,
            existing_result,
            report-Recorded index (tool_result_from_execution call row) p done,
            e,
          ),
        )

  -- Such a batch changes nothing but the sequence of the event ids.
  pub execute_tool_calls-reported :
      {W : Type 0} (disk : Disk W) (now : ℕ → String) (calls : List ToolCall) (p : Process W)
      → Reorders disk.finish_order
      → AllReported 0 calls p.db
      → (rs : List ToolResult) × (n : ℕ) × (execute_tool_calls codec run_id step disk now calls p
          ≡ (ok rs, record p { db = with_ids n p.db }))
  execute_tool_calls-reported {W} disk now calls p reorders h =
      let (m, begun) = log_starts-reported 0 calls p.db h in
      let (rs, n, e) =
        report_results-reported 0 calls (record p { db = with_ids m p.db })
          (AllReported-with_ids m 0 calls p.db h) in
      let at : Database → Outcome (List ToolResult) (Process W) = λ db.
        report_results codec run_id step [] 0 calls
          (map (existing_result codec run_id step db) calls) (record p { db = db }) in
      (
        rs,
        n,
        straight_to_report codec run_id step disk now calls p reorders
              (AllReported-AllHeld 0 calls p.db h)
            ∙ ap at begun
            ∙ e,
      )
