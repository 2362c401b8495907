-- ===== src/Batch/Waiting.antt =====
-- The calls without side effects and the slots of the others, `_execute_tool_calls` of
-- agent/runtime.py.
use adversarial_agent_runtim.Prelude.{
  ℕ, String, Bool, ◌≡◌, ◌∙◌, true, false, not, Option, none, some, List, ◌==◌, All, get_elem?, eqb,
  arith, inl, inr, Bool-cases,
}
use adversarial_agent_runtim.Codec.{Codec}
use adversarial_agent_runtim.Stateful.{for_each-keeps}
use adversarial_agent_runtim.Database.Schema.{SentEmail}
use adversarial_agent_runtim.Response.ToolCalls.{ToolCall}
use adversarial_agent_runtim.Runtime.Keys.{ToolResult}
use adversarial_agent_runtim.Batch.State.{Disk, BatchState, is_side_effect_tool, pure_calls}
use adversarial_agent_runtim.Batch.Phases.{run_call, run_pure_call, run_pure_calls}
use adversarial_agent_runtim.Batch.Slots.{
  At, get_elem?-set_other, same_index, All-keep, All-implies, FailedAt,
}
use adversarial_agent_runtim.Batch.Emails.{emails-run_one}
use adversarial_agent_runtim.Batch.Frozen.{OtherIndex}

-- The threads run the calls that they are given.
abbrev pub Reorders : (List (ℕ × ToolCall) → List (ℕ × ToolCall)) → Type 1
Reorders order =
    (P : ℕ × ToolCall → Type 0) (items : List (ℕ × ToolCall)) → All P items → All P (order items)

module _ {W : Type 0} (disk : Disk W) (codec : Codec) (run_id : String) (now : ℕ → String)
    (untrusted : Bool) where
  -- The calls without side effects, of a batch.
  abbrev pub IsPureOf : List ToolCall → ℕ × ToolCall → Type 0
  IsPureOf calls item = At calls item × (is_side_effect_tool item.1 ≡ false)

  -- A call with side effects whose slot is empty.
  abbrev pub AwaitsIn : List ToolCall → List (Option ToolResult) → ℕ × ToolCall → Type 0
  AwaitsIn calls results item =
      At calls item × (is_side_effect_tool item.1 ≡ true) × (get_elem? results item.0 ≡ some none)

  pure_is_no_email :
      (call : ToolCall) → is_side_effect_tool call ≡ false → (call.name == "send_email") ≡ false
  unfolding is_side_effect_tool
  pure_is_no_email call h = ground arith

  apart :
      (calls : List ToolCall) (i k : ℕ) (c d : ToolCall)
      → At calls (i, c)
      → is_side_effect_tool c ≡ false
      → At calls (k, d)
      → is_side_effect_tool d ≡ true
      → eqb i k ≡ false
  apart calls i k c d hc pure_c hd effect_d = elim (Bool-cases (eqb i k)) [
    | inr other ↦ other
    | inl same ↦ clash (same_index calls i k c d same hc hd)
  ]
    where
      clash : Path (Option ToolCall) (some c) (some d) → eqb i k ≡ false
      clash e = cc

  -- The slots of the calls with side effects stay empty, and no email is sent.
  abbrev pub Waiting : List ToolCall → List (ℕ × ToolCall) → List SentEmail → BatchState W → Type 0
  Waiting calls effects sent s =
      All (AwaitsIn calls s.ordered_results) effects × (s.db.sent_emails ≡ sent)

  module _ (calls : List ToolCall) (effects : List (ℕ × ToolCall)) (sent : List SentEmail) where
    run_pure_call-Waiting :
        (item : ℕ × ToolCall) (s : BatchState W)
        → IsPureOf calls item
        → Waiting calls effects sent s
        → Waiting calls effects sent (run_pure_call disk codec run_id now untrusted item s).1
    unfolding run_pure_call run_call
    run_pure_call-Waiting (index, call) s (at, harmless) (awaits, e) = (
      All-implies (AwaitsIn calls s.ordered_results) _ effects
          (λ (k, d) (atk, effect, empty). (
            atk,
            effect,
            get_elem?-set_other s.ordered_results index k _
                  (apart calls index k call d at harmless atk effect)
                ∙ empty,
          ))
          awaits,
      emails-run_one disk.host codec run_id (now index) untrusted call s.db s.machine
            (pure_is_no_email call harmless)
          ∙ e,
    )

    pub pure_calls-Waiting :
        (items : List (ℕ × ToolCall)) (s : BatchState W)
        → Reorders disk.finish_order
        → All (At calls) items
        → Waiting calls effects sent s
        → Waiting calls effects sent (run_pure_calls disk codec run_id now untrusted items s).1
    unfolding run_pure_calls
    pure_calls-Waiting items s reorders at h =
        for_each-keeps (Waiting calls effects sent) (IsPureOf calls)
          (run_pure_call disk codec run_id now untrusted) (disk.finish_order (pure_calls items)) s
          run_pure_call-Waiting
          (reorders (IsPureOf calls) (pure_calls items) (
            All-implies (λ item. At calls item × (not (is_side_effect_tool item.1) ≡ true))
              (IsPureOf calls) (pure_calls items)
              (λ item (a, harmless). (a, ground (arith, harmless)))
              (All-keep (At calls) (λ item. not (is_side_effect_tool item.1)) items at)))
          h

  pub other_index :
      (j : ℕ) (calls : List ToolCall) (results : List (Option ToolResult)) (item : ℕ × ToolCall)
      → FailedAt j results
      → AwaitsIn calls results item
      → OtherIndex disk codec run_id now untrusted j item
  other_index j calls results (i, call) (r, at, failed) (_, _, empty) =
      elim (Bool-cases (eqb i j)) [ inr other ↦ other | inl same ↦ ground (arith, at, empty, same) ]
