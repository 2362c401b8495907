-- ===== src/Loop/Iterate.antt =====
-- agent/runtime.py, `AgentRuntime.run`: what becomes of a reply, and one round of the loop. The
-- tracer writes to a file of its own and is left out.
use Prim.Native.String.{◌++◌}
use adversarial_agent_runtim.Prelude.{String, none, some, List, [], ◌∷◌, if◌then◌else◌}
use adversarial_agent_runtim.Json.{dict}
use adversarial_agent_runtim.Errors.{
  Error, ok, raise, raised, class_name, is_agent_error, partial_tool_turn_error,
  model_contradiction_error,
}
use adversarial_agent_runtim.Stateful.{Outcome, and_then}
use adversarial_agent_runtim.Text.{decimal}
use adversarial_agent_runtim.Database.EventLog.{append_event, get_events}
use adversarial_agent_runtim.Database.RunRows.{update_run_and_append_event}
use adversarial_agent_runtim.Response.ToolCalls.{ToolCall}
use adversarial_agent_runtim.Runtime.Keys.{event_key}
use adversarial_agent_runtim.Runtime.Budget.{charge_budget}
use adversarial_agent_runtim.Runtime.Progress.{
  log_loop_control, check_progress, raise_if_recorded_no_progress,
}
use adversarial_agent_runtim.Runtime.Pending.{parsed_payload}
use adversarial_agent_runtim.Validator.{ValidatedAgentResponse}
use adversarial_agent_runtim.Loop.State.{Runtime, Running, Round, next_round}
use adversarial_agent_runtim.Loop.Contradiction.{is_incomplete_partial_turn, model_contradiction}
use adversarial_agent_runtim.Loop.Turn.{
  tools_changes, step_limit_payload, partial_payload, lift, finish, recover_pending, run_pending,
  take_response,
}

-- `f"{type(exc).__name__}: {exc}"`.
abbrev pub reason_of : Error → String
reason_of e = class_name e.class ++ ": " ++ e.message

module _ {W C : Type 0} (runtime : Runtime W C) (run_id task : String) where
  unfoldable pub charge : ValidatedAgentResponse → Running W C → Outcome (Unit {0}) (Running W C)
  charge response s =
      let (r, db) =
        charge_budget runtime.codec runtime.convert runtime.limits run_id response.token_count
          (dict response.raw_response) s.total_cost s.step s.db in
      and_then (r, record s { db = db }) (λ total s. (ok tt, record s { total_cost = total }))

  -- A partial turn is recorded, and ends the run.
  unfoldable pub reject_partial : ValidatedAgentResponse → Running W C → Outcome Round (Running W C)
  reject_partial response s =
      let (inserted, db) =
        append_event run_id "partial_tool_turn" (partial_payload response) (some s.step)
          (some (run_id ++ ":partial_tool_turn:" ++ decimal s.step)) s.db in
      (raise partial_tool_turn_error "incomplete interrupted tool-call turn", record s { db = db })

  -- A reply without tool calls: it contradicts the last results, or it completes the run.
  unfoldable pub accept_final : ValidatedAgentResponse → Running W C → Outcome Round (Running W C)
  accept_final response s =
      elim (model_contradiction runtime.codec runtime.path_name (get_events run_id s.db)
        response.assistant_text s.step) [
          | none ↦ finish runtime run_id task "completed" s
          | some contradiction ↦
              let (inserted, db) =
                append_event run_id "model_contradiction" contradiction (some s.step)
                  (some (event_key runtime.codec run_id "model_contradiction" s.step contradiction))
                  s.db in
              (
                raise model_contradiction_error
                    "assistant claimed success despite failed tool result",
                record s { db = db },
              )
        ]

  -- The tool calls are recorded with the state of the run, and become pending.
  unfoldable pub accept_calls : ValidatedAgentResponse → Running W C → Outcome Round (Running W C)
  accept_calls response s =
      let written =
        update_run_and_append_event run_id "tool_calls_parsed" (parsed_payload response.tool_calls)
          (tools_changes "RUNNING_TOOLS" s.step response.tool_calls) (some s.step)
          (some (run_id ++ ":tool_calls_parsed:" ++ decimal s.step)) s.db in
      and_then (lift runtime run_id task written s) (λ (inserted, db) s.
        let (r, checked) =
          check_progress runtime.codec runtime.limits run_id response.tool_calls s.step db in
        and_then (r, record s { db = checked })
          (λ _ s.
            (ok next_round, record s { status = "RUNNING_TOOLS"; pending = response.tool_calls })))

  -- A complete reply, by its tool calls.
  unfoldable pub accept :
      List ToolCall → ValidatedAgentResponse → Running W C → Outcome Round (Running W C)
  accept [] response s = accept_final response s
  accept (call ∷ calls) response s = accept_calls response s

  unfoldable pub judge : ValidatedAgentResponse → Running W C → Outcome Round (Running W C)
  judge response s =
      if is_incomplete_partial_turn response
      then reject_partial response s
      else accept response.tool_calls response s

  -- The round when no call is pending.
  unfoldable pub model_round : Running W C → Outcome Round (Running W C)
  model_round s =
      and_then (take_response runtime run_id task s)
        (λ response s. and_then (charge response s) (λ _ s. judge response s))

  -- What a round does, by the pending calls.
  unfoldable pub pending_or_model : List ToolCall → Running W C → Outcome Round (Running W C)
  pending_or_model [] s = model_round s
  pending_or_model (call ∷ calls) s = run_pending runtime run_id task s

  -- The body of the `try` statement.
  unfoldable pub attempt : Running W C → Outcome Round (Running W C)
  attempt s =
      and_then
        (lift runtime run_id task
          (raise_if_recorded_no_progress runtime.codec runtime.limits (get_events run_id s.db)) s)
        (λ _ s.
          and_then (recover_pending runtime run_id task s.pending s)
            (λ _ s. pending_or_model s.pending s))

  -- `except (AgentError, NetworkFailureError, ContextLimitExceededError)`: all are AgentErrors.
  unfoldable pub caught : Outcome Round (Running W C) → Outcome Round (Running W C)
  caught (ok round, s) = (ok round, s)
  caught (raised e, s) =
      if is_agent_error e.class then finish runtime run_id task (reason_of e) s else (raised e, s)

  -- One round of `while step < self.config.max_steps`.
  unfoldable pub round : Running W C → Outcome Round (Running W C)
  round s = caught (attempt s)

  -- What follows the loop.
  unfoldable pub limit_reached : Running W C → Outcome Round (Running W C)
  limit_reached s =
      finish runtime run_id task "MaxStepsReachedError: step limit reached" (record s {
        db =
            log_loop_control runtime.codec runtime.limits run_id s.step
              (step_limit_payload s.step runtime.max_steps) s.db;
      })
