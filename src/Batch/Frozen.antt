-- ===== src/Batch/Frozen.antt =====
-- The calls with side effects after a failed result, `_execute_tool_calls` of agent/runtime.py.
use adversarial_agent_runtim.Prelude.{ℕ, String, Bool, ◌≡◌, ◌∙◌, false, List, All, eqb}
use adversarial_agent_runtim.Codec.{Codec}
use adversarial_agent_runtim.Stateful.{and_then-keeps, for_each, for_each-keeps}
use adversarial_agent_runtim.Database.Schema.{SentEmail}
use adversarial_agent_runtim.Response.ToolCalls.{ToolCall}
use adversarial_agent_runtim.Runtime.Keys.{idempotency_key}
use adversarial_agent_runtim.Batch.State.{Disk, BatchState, calls_named}
use adversarial_agent_runtim.Batch.Phases.{
  write_skipped, email_skipped, skip_call, run_write, run_email, run_side_effects,
}
use adversarial_agent_runtim.Batch.Slots.{FailedAt, has_failed-FailedAt, set-FailedAt}
use adversarial_agent_runtim.Batch.Emails.{emails-blocked_tool_result}

module _ {W : Type 0} (disk : Disk W) (codec : Codec) (run_id : String) (now : ℕ → String)
    (untrusted : Bool) where
  -- A failed result stands in slot j, the machine is `w` and the emails are `sent`.
  abbrev pub Frozen : ℕ → W → List SentEmail → BatchState W → Type 0
  Frozen j w sent s = FailedAt j s.ordered_results × (s.machine ≡ w) × (s.db.sent_emails ≡ sent)

  abbrev pub OtherIndex : ℕ → ℕ × ToolCall → Type 0
  OtherIndex j item = eqb item.0 j ≡ false

  module _ (j : ℕ) (w : W) (sent : List SentEmail) where
    skip_call-Frozen :
        (error : String) (item : ℕ × ToolCall) (s : BatchState W)
        → OtherIndex j item
        → Frozen j w sent s
        → Frozen j w sent (skip_call disk codec run_id now untrusted error item s)
    unfolding skip_call
    skip_call-Frozen error (index, call) s other (failed, m, e) = (
      set-FailedAt index j _ s.ordered_results other failed,
      m,
      emails-blocked_tool_result run_id call (idempotency_key codec run_id call) error s.db ∙ e,
    )

    run_write-Frozen :
        (item : ℕ × ToolCall) (s : BatchState W)
        → OtherIndex j item
        → Frozen j w sent s
        → Frozen j w sent (run_write disk codec run_id now untrusted item s).1
    unfolding run_write
    run_write-Frozen (index, call) s other (failed, m, e) =
        rw (has_failed-FailedAt j s.ordered_results failed, run_write)
          (skip_call-Frozen write_skipped (index, call) s other (failed, m, e))

    run_email-Frozen :
        (item : ℕ × ToolCall) (s : BatchState W)
        → OtherIndex j item
        → Frozen j w sent s
        → Frozen j w sent (run_email disk codec run_id now untrusted item s).1
    unfolding run_email
    run_email-Frozen (index, call) s other (failed, m, e) =
        rw (has_failed-FailedAt j s.ordered_results failed, run_email)
          (skip_call-Frozen email_skipped (index, call) s other (failed, m, e))

    pub run_side_effects-Frozen :
        (items : List (ℕ × ToolCall)) (s : BatchState W)
        → All (OtherIndex j) (calls_named "write_file" items)
        → All (OtherIndex j) (calls_named "send_email" items)
        → Frozen j w sent s
        → Frozen j w sent (run_side_effects disk codec run_id now untrusted items s).1
    unfolding run_side_effects
    run_side_effects-Frozen items s writes emails h =
        and_then-keeps (Frozen j w sent)
          (for_each (run_write disk codec run_id now untrusted) (calls_named "write_file" items) s)
          _
          (for_each-keeps (Frozen j w sent) (OtherIndex j)
            (run_write disk codec run_id now untrusted) (calls_named "write_file" items) s
            run_write-Frozen writes h)
          (λ _ written h'.
            for_each-keeps (Frozen j w sent) (OtherIndex j)
              (run_email disk codec run_id now untrusted) (calls_named "send_email" items) written
              run_email-Frozen emails h')
