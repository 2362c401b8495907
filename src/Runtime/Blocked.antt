-- ===== src/Runtime/Blocked.antt =====
-- Emails after untrusted tool results, agent/runtime.py.
use adversarial_agent_runtim.Prelude.{
  Bool-cases, inl, inr, String, true, false, ◌≡◌, refl, none, some, ◌==◌,
}
use adversarial_agent_runtim.Codec.{Codec}
use adversarial_agent_runtim.Database.Schema.{ToolExecution, Database}
use adversarial_agent_runtim.Database.SideEffects.{get_tool_execution, record_tool_execution}
use adversarial_agent_runtim.Response.ToolCalls.{ToolCall}
use adversarial_agent_runtim.Runtime.Keys.{idempotency_key}
use adversarial_agent_runtim.Runtime.RunOne.{
  blocked_row, blocked_tool_result, email_blocked, run_one,
}
use adversarial_agent_runtim.Tools.Host.{Host}
use adversarial_agent_runtim.Tools.Executor.{from_execution, failed_result}
use adversarial_agent_runtim.Tools.Recorded.{get-record, held}

module _ {W : Type 0} (host : Host W) (codec : Codec) (run_id : String) where
  -- The store after the email was blocked.
  abbrev blocked_store : ToolCall → Database → Database
  blocked_store call db =
      record_tool_execution
        (blocked_row run_id call (idempotency_key codec run_id call) email_blocked) db

  first_block :
      (now : String) (call : ToolCall) (db : Database) (w : W)
      → (call.name == "send_email") ≡ true
      → get_tool_execution (idempotency_key codec run_id call) db ≡ none
      → run_one host codec run_id now true call db w ≡ (
        failed_result call (idempotency_key codec run_id call) email_blocked,
        blocked_store call db,
        w,
      )
  unfolding run_one blocked_tool_result
  first_block now call db w email new = rw (email, new, run_one, blocked_tool_result)

  later_run :
      (now : String) (call : ToolCall) (row : ToolExecution) (db : Database) (w : W)
      → get_tool_execution (idempotency_key codec run_id call) db ≡ some row
      → run_one host codec run_id now false call db w
        ≡ (from_execution call (idempotency_key codec run_id call) row, db, w)
  unfolding run_one
  later_run now call row db w found = elim (Bool-cases (call.name == "send_email")) [
    | inl email ↦
        rw (email, run_one)
          (held host run_id now call (idempotency_key codec run_id call) row db w found)
    | inr other ↦
        rw (other, run_one)
          (held host run_id now call (idempotency_key codec run_id call) row db w found)
  ]

  -- A `send_email` call without a recorded execution, while the memory holds untrusted tool results:
  -- it fails, no email is stored and the machine stays as it is. The decision lasts: the same call
  -- gets the same result and changes nothing when the memory holds no such results any more.
  pub run_one-blocked :
      (now later : String) (call : ToolCall) (db : Database) (w w2 : W)
      → (call.name == "send_email") ≡ true
      → get_tool_execution (idempotency_key codec run_id call) db ≡ none
      → let (r, db', w') = run_one host codec run_id now true call db w in
        (r.ok ≡ false)
        × (db'.sent_emails ≡ db.sent_emails)
        × (w' ≡ w)
        × (run_one host codec run_id later false call db' w2 ≡ (r, db', w2))
  unfolding record_tool_execution
  run_one-blocked now later call db w w2 email new = rw (first_block now call db w email new) (
    refl,
    refl,
    refl,
    later_run later call (blocked_row run_id call (idempotency_key codec run_id call) email_blocked)
        _ w2
        (get-record (blocked_row run_id call (idempotency_key codec run_id call) email_blocked) db
          new),
  )
