-- ===== src/Batch/Failed.antt =====
-- Side effects beside a failed sibling, `_execute_tool_calls` of agent/runtime.py.
use mathlib.Core.Path.{subst}
use adversarial_agent_runtim.Prelude.{
  eq_iff, ℕ, String, ◌≡◌, refl, sym, ap, ◌∙◌, true, false, ◌||◌, none, some, List, ◌==◌, map, All,
  get_elem?, eqb, arith, inl, inr, Option-cases, is_some, if◌then◌else◌,
}
use adversarial_agent_runtim.Errors.{ok, raised}
use adversarial_agent_runtim.Codec.{Codec}
use adversarial_agent_runtim.Stateful.{Outcome, and_then-keeps}
use adversarial_agent_runtim.Database.Schema.{Database}
use adversarial_agent_runtim.Database.SideEffects.{get_tool_execution}
use adversarial_agent_runtim.Response.ToolCalls.{ToolCall}
use adversarial_agent_runtim.Runtime.Keys.{idempotency_key}
use adversarial_agent_runtim.Batch.State.{
  Disk, BatchState, enumerate, is_side_effect_tool, batch_has_failed_result, calls_named,
}
use adversarial_agent_runtim.Batch.Phases.{run_pure_calls, run_side_effects}
use adversarial_agent_runtim.Batch.Execute.{
  Process, existing_result, calls_to_execute, first_state, run_phases, with_batch, after_phases,
  execute_tool_calls,
}
use adversarial_agent_runtim.Batch.Slots.{
  At, enumerate-At, get_elem?-map, All-keep, All-implies, FailedAt, failed_slot,
}
use adversarial_agent_runtim.Batch.Emails.{emails-log_starts, Untouched, report_results-Untouched}
use adversarial_agent_runtim.Batch.Frozen.{Frozen, run_side_effects-Frozen}
use adversarial_agent_runtim.Batch.Waiting.{Reorders, AwaitsIn, pure_calls-Waiting, other_index}

-- What the batch starts from.
module _ {W : Type 0} (disk : Disk W) (codec : Codec) (run_id : String) (step : ℕ)
    (now : ℕ → String) where
  slot_empty :
      (db : Database) (calls : List ToolCall) (i : ℕ) (call : ToolCall)
      → At calls (i, call)
      → (if is_some (get_tool_execution (idempotency_key codec run_id call) db)
          then false
          else true)
        ≡ true
      → get_elem? (map (existing_result codec run_id step db) calls) i ≡ some none
  unfolding existing_result
  slot_empty db calls i call at new =
      elim (Option-cases (get_tool_execution (idempotency_key codec run_id call) db)) [
        | inr (row, found) ↦ clash (ground (arith, new, found))
        | inl missing ↦
            get_elem?-map (existing_result codec run_id step db) calls i call at
            ∙ ap (λ o. some o) (rw (missing, existing_result) refl)
      ]
    where
      clash :
          false ≡ true → get_elem? (map (existing_result codec run_id step db) calls) i ≡ some none
      clash e = cc

  effect_name :
      (name : String)
      → (name == "write_file" || name == "send_email") ≡ true
      → (call : ToolCall) → (call.name == name) ≡ true
      → is_side_effect_tool call ≡ true
  unfolding is_side_effect_tool
  effect_name name effect call same =
      subst (λ n. (n == "write_file" || n == "send_email") ≡ true)
        (sym ((eq_iff call.name name).0 same)) effect

  awaiting :
      (name : String) (db : Database) (calls : List ToolCall)
      → (name == "write_file" || name == "send_email") ≡ true
      → All
          (AwaitsIn disk codec run_id now true calls
            (map (existing_result codec run_id step db) calls))
          (calls_named name (calls_to_execute codec run_id step db (enumerate 0 calls)))
  unfolding calls_to_execute
  awaiting name db calls effect =
      All-implies _ _ _
        (λ (i, call) ((at, new), named).
          (at, effect_name name effect call named, slot_empty db calls i call at new))
        (All-keep _ (λ item. item.1.name == name) _
          (All-keep (At calls) _ (enumerate 0 calls) (enumerate-At calls)))

  -- The calls of one kind with side effects, after the calls without, have other indices.
  effects_apart :
      (name : String) (calls : List ToolCall) (p : Process W) (j : ℕ)
      → Reorders disk.finish_order
      → (name == "write_file" || name == "send_email") ≡ true
      → let first = first_state codec run_id step disk now calls p in
        let items = calls_to_execute codec run_id step first.db (enumerate 0 calls) in
        let read =
          (run_pure_calls disk codec run_id now p.memory.has_tool_result_data items first).1 in
        FailedAt j read.ordered_results
        → All (λ item. eqb item.0 j ≡ false) (calls_named name items)
          × (read.db.sent_emails ≡ p.db.sent_emails)
  unfolding calls_to_execute
  effects_apart name calls p j reorders effect failed =
      let first = first_state codec run_id step disk now calls p in
      let items = calls_to_execute codec run_id step first.db (enumerate 0 calls) in
      let untrusted = p.memory.has_tool_result_data in
      let read = (run_pure_calls disk codec run_id now untrusted items first).1 in
      let (awaits, e) =
        pure_calls-Waiting disk codec run_id now untrusted calls (calls_named name items)
          p.db.sent_emails items first reorders
          (All-implies _ _ items (λ item (at, new). at)
            (All-keep (At calls) _ (enumerate 0 calls) (enumerate-At calls)))
          (
            awaiting name first.db calls effect,
            emails-log_starts codec run_id step (enumerate 0 calls) p.db,
          ) in
      (
        All-implies _ _ (calls_named name items)
            (λ item a.
              other_index disk codec run_id now untrusted j calls read.ordered_results item failed
                a)
            awaits,
        e,
      )

  phases-Frozen :
      (calls : List ToolCall) (p : Process W)
      → Reorders disk.finish_order
      → let first = first_state codec run_id step disk now calls p in
        let items = calls_to_execute codec run_id step first.db (enumerate 0 calls) in
        let untrusted = p.memory.has_tool_result_data in
        let read = (run_pure_calls disk codec run_id now untrusted items first).1 in
        batch_has_failed_result read.ordered_results ≡ true
        → let s = (run_phases codec run_id step disk now untrusted items first).1 in
          (s.machine ≡ read.machine) × (s.db.sent_emails ≡ p.db.sent_emails)
  unfolding run_phases
  phases-Frozen calls p reorders has_failed =
      let first = first_state codec run_id step disk now calls p in
      let items = calls_to_execute codec run_id step first.db (enumerate 0 calls) in
      let untrusted = p.memory.has_tool_result_data in
      let (r, read) = run_pure_calls disk codec run_id now untrusted items first in
      let (j, failed) = failed_slot read.ordered_results has_failed in
      let (writes, e) = effects_apart "write_file" calls p j reorders refl failed in
      let (emails, _) = effects_apart "send_email" calls p j reorders refl failed in
      let side : (s : BatchState W)
          → Frozen disk codec run_id now untrusted j read.machine p.db.sent_emails s
          → Frozen disk codec run_id now untrusted j read.machine p.db.sent_emails
              (run_side_effects disk codec run_id now untrusted items s).1 =
        λ s h.
          run_side_effects-Frozen disk codec run_id now untrusted j read.machine p.db.sent_emails
            items s writes emails h in
      let (_, m, e') =
        and_then-keeps (Frozen disk codec run_id now untrusted j read.machine p.db.sent_emails)
          (run_pure_calls disk codec run_id now untrusted items first) _ (failed, refl, e)
          (λ _ s h. side s h) in
      (m, e')

  after_phases-Untouched :
      (calls : List ToolCall) (p : Process W) (outcome : Outcome (Unit {0}) (BatchState W))
      → Untouched codec run_id step
          (with_batch codec run_id step disk now outcome.1 p)
          (after_phases codec run_id step disk now calls p outcome).1
  unfolding after_phases
  after_phases-Untouched calls p (raised e, s) = (refl, refl)
  after_phases-Untouched calls p (ok _, s) =
      report_results-Untouched codec run_id step s.restored_write_indexes 0 calls s.ordered_results
        (with_batch codec run_id step disk now s p)

  -- Suppose that after the calls without side effects some result of the batch has failed, where the
  -- threads run only calls that they are given. Then the batch does nothing more to the machine, so no
  -- file is written, and it sends no email.
  pub execute_tool_calls-failed :
      (calls : List ToolCall) (p : Process W)
      → Reorders disk.finish_order
      → let first = first_state codec run_id step disk now calls p in
        let items = calls_to_execute codec run_id step first.db (enumerate 0 calls) in
        let read =
          (run_pure_calls disk codec run_id now p.memory.has_tool_result_data items first).1 in
        batch_has_failed_result read.ordered_results ≡ true
        → let after = (execute_tool_calls codec run_id step disk now calls p).1 in
          (after.machine ≡ read.machine) × (after.db.sent_emails ≡ p.db.sent_emails)
  unfolding execute_tool_calls
  execute_tool_calls-failed calls p reorders failed =
      let first = first_state codec run_id step disk now calls p in
      let items = calls_to_execute codec run_id step first.db (enumerate 0 calls) in
      let (m, e) = phases-Frozen calls p reorders failed in
      let (m', e') =
        after_phases-Untouched calls p
          (run_phases codec run_id step disk now p.memory.has_tool_result_data items first) in
      (m' ∙ m, e' ∙ e)
