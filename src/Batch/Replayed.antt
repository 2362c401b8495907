-- ===== src/Batch/Replayed.antt =====
-- A batch whose calls have recorded executions, `_execute_tool_calls` of agent/runtime.py.
use adversarial_agent_runtim.Prelude.{
  ℕ, String, Bool, ◌≡◌, refl, ap, ◌∙◌, true, false, Option, some, List, [], ◌∷◌, map, All,
}
use adversarial_agent_runtim.Errors.{Result, ok}
use adversarial_agent_runtim.Codec.{Codec}
use adversarial_agent_runtim.Stateful.{and_then, for_each}
use adversarial_agent_runtim.Database.SideEffects.{get_tool_execution}
use adversarial_agent_runtim.Response.ToolCalls.{ToolCall}
use adversarial_agent_runtim.Runtime.Keys.{ToolResult}
use adversarial_agent_runtim.Batch.State.{Disk, BatchState, enumerate}
use adversarial_agent_runtim.Batch.Phases.{run_pure_calls, run_side_effects}
use adversarial_agent_runtim.Batch.Execute.{
  Process, existing_result, report_results, first_state, run_phases, with_batch, after_phases,
  execute_tool_calls,
}
use adversarial_agent_runtim.Batch.Waiting.{Reorders}
use adversarial_agent_runtim.Batch.Held.{
  SameEffects, AllHeld, AllHeld-log_starts, log_starts-SameEffects, nothing_to_execute, held_slots,
  report_results-NoEffect, report_results-all,
}

nothing_left : (order : List (ℕ × ToolCall) → List (ℕ × ToolCall)) → Reorders order → order [] ≡ []
nothing_left order reorders = empty (order []) (reorders (λ _. true ≡ false) [] tt)
  where
    empty : (items : List (ℕ × ToolCall)) → All (λ _. true ≡ false) items → items ≡ []
    empty [] h = refl
    empty (item ∷ items) (h, _) = cc

module _ (codec : Codec) (run_id : String) (step : ℕ) where
  module _ {W : Type 0} (disk : Disk W) (now : ℕ → String) where
    no_phases :
        (untrusted : Bool) (s : BatchState W)
        → Reorders disk.finish_order
        → run_phases codec run_id step disk now untrusted [] s ≡ (ok tt, s)
    unfolding run_phases run_pure_calls run_side_effects for_each and_then
    no_phases untrusted s reorders = rw (nothing_left disk.finish_order reorders)

    -- A batch whose calls are all held goes straight to its report.
    pub straight_to_report :
        (calls : List ToolCall) (p : Process W)
        → Reorders disk.finish_order
        → AllHeld codec run_id step calls p.db
        → let first = first_state codec run_id step disk now calls p in
          execute_tool_calls codec run_id step disk now calls p
          ≡ report_results codec run_id step [] 0 calls first.ordered_results
              (with_batch codec run_id step disk now first p)
    unfolding execute_tool_calls after_phases
    straight_to_report calls p reorders held =
        let first = first_state codec run_id step disk now calls p in
        let untrusted = p.memory.has_tool_result_data in
        let ran =
          ap (λ items. run_phases codec run_id step disk now untrusted items first)
            (nothing_to_execute codec run_id step first.db 0 calls
              (AllHeld-log_starts codec run_id step (enumerate 0 calls) calls p.db held))
          ∙ no_phases untrusted first reorders in
        ap (after_phases codec run_id step disk now calls p) ran

    same_slots :
        (calls : List ToolCall) (p : Process W)
        → (first_state codec run_id step disk now calls p).ordered_results
          ≡ map (existing_result codec run_id step p.db) calls
    unfolding existing_result get_tool_execution
    same_slots calls p = rw (log_starts-SameEffects codec run_id step (enumerate 0 calls) p.db).0

    -- When every call of a batch has a recorded execution, as after a crash between the calls and
    -- their report, where the threads run only calls that they are given: the batch changes neither
    -- the machine nor the tables of executions and emails, and if it returns, its results are the
    -- recorded ones, one for each call and in the order of the calls.
    pub execute_tool_calls-held :
        (calls : List ToolCall) (p : Process W)
        → Reorders disk.finish_order
        → AllHeld codec run_id step calls p.db
        → let (r, p') = execute_tool_calls codec run_id step disk now calls p in
          (p'.machine ≡ p.machine)
          × SameEffects p.db p'.db
          × ((results : List ToolResult)
              → r ≡ ok results
              → map (existing_result codec run_id step p.db) calls ≡ map some results)
    execute_tool_calls-held calls p reorders held =
        let first = first_state codec run_id step disk now calls p in
        let (rs, slots, same) = held_slots codec run_id step p.db calls held in
        let begun = with_batch codec run_id step disk now first p in
        let went =
          straight_to_report calls p reorders held
          ∙ ap (λ xs. report_results codec run_id step [] 0 calls xs begun)
              (same_slots calls p ∙ slots) in
        let (m, (x, e)) = report_results-NoEffect codec run_id step 0 calls (map some rs) begun in
        let (x0, e0) = log_starts-SameEffects codec run_id step (enumerate 0 calls) p.db in
        rw went (
          m,
          (x ∙ x0, e ∙ e0),
          λ results returned.
              slots
              ∙ unwrap rs results
                  (report_results-all codec run_id step 0 calls rs results begun same returned),
        )
      where
        unwrap :
            (rs results : List ToolResult)
            → Path (Result (List ToolResult)) (ok rs) (ok results)
            → Path (List (Option ToolResult)) (map some rs) (map some results)
        unwrap rs results e = ap (map some) (same_results e)
          where
            same_results : Path (Result (List ToolResult)) (ok rs) (ok results) → rs ≡ results
            same_results e = cc
