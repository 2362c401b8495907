-- ===== src/Batch/Phases.antt =====
-- `_execute_tool_calls` of agent/runtime.py: the calls without side effects, the writes, the emails.
use adversarial_agent_runtim.Prelude.{
  ℕ, String, Bool, true, false, Option, none, some, List, [], ◌∷◌, ◌++◌, set, if◌then◌else◌,
}
use adversarial_agent_runtim.Errors.{ok, raised}
use adversarial_agent_runtim.Codec.{Codec}
use adversarial_agent_runtim.Stateful.{Outcome, and_then, for_each}
use adversarial_agent_runtim.Response.ToolCalls.{ToolCall}
use adversarial_agent_runtim.Runtime.Keys.{ToolResult, idempotency_key}
use adversarial_agent_runtim.Runtime.RunOne.{blocked_tool_result, run_one}
use adversarial_agent_runtim.Batch.State.{
  Disk, Preimage, BatchState, batch_has_failed_result, calls_named, pure_calls,
}
use adversarial_agent_runtim.Batch.Preimages.{capture_write_preimage, rollback_writes}

abbrev pub write_skipped : String
write_skipped = "ToolSkippedError: write_file skipped because a sibling tool failed"

abbrev pub email_skipped : String
email_skipped = "ToolSkippedError: send_email skipped because a sibling tool failed"

-- `now` gives the time at which the call with an index reaches the store, `untrusted` is
-- `memory.has_untrusted_tool_results()`, which no call of the batch changes.
module _ {W : Type 0} (disk : Disk W) (codec : Codec) (run_id : String) (now : ℕ → String)
    (untrusted : Bool) where
  -- `run_one`, and `ordered_results[index] = result`.
  unfoldable pub run_call : ℕ × ToolCall → BatchState W → ToolResult × BatchState W
  run_call (index, call) s =
      let (r, db', w') = run_one disk.host codec run_id (now index) untrusted call s.db s.machine in
      (
        r,
        record s { db = db'; machine = w'; ordered_results = set s.ordered_results index (some r) },
      )

  -- A call without side effects, in a thread of the pool; `run_one` is taken as one step.
  unfoldable pub run_pure_call : ℕ × ToolCall → BatchState W → Outcome (Unit {0}) (BatchState W)
  run_pure_call item s = (ok tt, (run_call item s).1)

  -- `_skipped_side_effect_result`, and `ordered_results[index] = ...`.
  unfoldable pub skip_call : String → ℕ × ToolCall → BatchState W → BatchState W
  skip_call error (index, call) s =
      let (r, db') =
        blocked_tool_result run_id call (idempotency_key codec run_id call) error s.db in
      record s { db = db'; ordered_results = set s.ordered_results index (some r) }

  abbrev pub with_preimage :
      ℕ → Option (List String × Option String) → List Preimage → List Preimage
  with_preimage index none preimages = preimages
  with_preimage index (some (path, content)) preimages = preimages ++ (index, path, content) ∷ []

  -- What follows a write that was run with this preimage.
  unfoldable pub after_write :
      ℕ
      → Option (List String × Option String)
      → ToolResult × BatchState W
      → Outcome (Unit {0}) (BatchState W)
  after_write index preimage (r, s) =
      if r.ok
      then (ok tt, record s { write_preimages = with_preimage index preimage s.write_preimages })
      else rollback_writes disk s

  -- One round of the loop over the writes.
  unfoldable pub run_write : ℕ × ToolCall → BatchState W → Outcome (Unit {0}) (BatchState W)
  run_write (index, call) s = elim (batch_has_failed_result s.ordered_results) [
    | true ↦ (ok tt, skip_call write_skipped (index, call) s)
    | false ↦ elim (capture_write_preimage disk call s.machine) [
      | raised e ↦ (raised e, s)
      | ok preimage ↦ after_write index preimage (run_call (index, call) s)
    ]
  ]

  unfoldable pub after_email : ToolResult × BatchState W → Outcome (Unit {0}) (BatchState W)
  after_email (r, s) = if r.ok then (ok tt, s) else rollback_writes disk s

  -- One round of the loop over the emails.
  unfoldable pub run_email : ℕ × ToolCall → BatchState W → Outcome (Unit {0}) (BatchState W)
  run_email (index, call) s = elim (batch_has_failed_result s.ordered_results) [
    | true ↦ (ok tt, skip_call email_skipped (index, call) s)
    | false ↦ after_email (run_call (index, call) s)
  ]

  unfoldable pub run_pure_calls :
      List (ℕ × ToolCall) → BatchState W → Outcome (Unit {0}) (BatchState W)
  run_pure_calls items s = for_each run_pure_call (disk.finish_order (pure_calls items)) s

  unfoldable pub run_side_effects :
      List (ℕ × ToolCall) → BatchState W → Outcome (Unit {0}) (BatchState W)
  run_side_effects items s =
      and_then (for_each run_write (calls_named "write_file" items) s)
        (λ _ written. for_each run_email (calls_named "send_email" items) written)
