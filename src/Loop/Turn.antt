-- ===== src/Loop/Turn.antt =====
-- agent/runtime.py, `AgentRuntime.run`: the updates of the run's row, the pending calls, and the
-- turn of the model. The tracer writes to a file of its own and is left out.
use adversarial_agent_runtim.Prelude.{
  ℕ, zero, suc, String, not, ◌&&◌, Option, none, some, List, [], ◌∷◌, ◌==◌, eqb, map, or_else,
  length, if◌then◌else◌,
}
use adversarial_agent_runtim.Json.{
  Json, ℤ, pos, negsuc, int, num, str, null, dict, Fields, get, object,
}
use adversarial_agent_runtim.Errors.{Result, ok, raise, raised, builtin, ◌>>=◌}
use adversarial_agent_runtim.Stateful.{Outcome, and_then}
use adversarial_agent_runtim.Database.EventLog.{get_events}
use adversarial_agent_runtim.Database.RunRows.{Changes, get_run, update_run, finish_run}
use adversarial_agent_runtim.Response.ToolCalls.{ToolCall}
use adversarial_agent_runtim.Runtime.Log.{
  event_payload, has_event, recorded_response_to_process, int_of,
}
use adversarial_agent_runtim.Runtime.Progress.{log_loop_control}
use adversarial_agent_runtim.Runtime.Pending.{as_dict, recover_pending_tool_calls}
use adversarial_agent_runtim.Validator.{
  ValidatedAgentResponse, record_parsed_response, validate_turn,
}
use adversarial_agent_runtim.Batch.Execute.{execute_tool_calls}
use adversarial_agent_runtim.Loop.State.{
  Runtime, Running, Round, next_round, returned, process_of, with_process, session_of, with_session,
}

abbrev pub no_changes : Changes
no_changes = record {
  status = none;
  step_count = none;
  termination_reason = none;
  pending_tool_calls = none;
}

-- `update_run(run_id, status=..., step_count=..., pending_tool_calls=[asdict(call) for call in calls])`.
abbrev pub tools_changes : String → ℕ → List ToolCall → Changes
tools_changes status step calls = record no_changes {
  status = some status;
  step_count = some step;
  pending_tool_calls = some (map as_dict calls);
}

abbrev pub calling_changes : ℕ → Changes
calling_changes step = record no_changes { status = some "CALLING_LLM"; step_count = some step }

-- The event payload of an object as the dict that the validator takes.
abbrev pub as_fields : Json → Result Fields
as_fields (dict d) = ok d
as_fields other = raise (builtin "AttributeError") "object has no attribute 'get'"

-- A token count of a request; it is never negative.
abbrev pub nat_of : ℤ → ℕ
nat_of (pos n) = n
nat_of (negsuc n) = zero

abbrev pub step_start_payload : ℕ → ℕ → ℤ → ℕ → Json
step_start_payload step max_steps total_cost budget = object (
    ("decision", str "step_start")
    ∷ ("step", num step)
    ∷ ("max_steps", num max_steps)
    ∷ ("total_cost", int total_cost)
    ∷ ("cost_budget", num budget)
    ∷ [])

abbrev pub step_limit_payload : ℕ → ℕ → Json
step_limit_payload step max_steps =
    object (("decision", str "step_limit") ∷ ("step", num step) ∷ ("max_steps", num max_steps) ∷ [])

abbrev pub opt_num : Option ℕ → Json
opt_num none = null
opt_num (some n) = num n

abbrev pub partial_payload : ValidatedAgentResponse → Json
partial_payload response = object (
    ("expected_tool_call_count", opt_num response.expected_tool_call_count)
    ∷ ("parsed_tool_call_count", num (length response.tool_calls))
    ∷ [])

module _ {W C : Type 0} (runtime : Runtime W C) (run_id task : String) where
  -- A value that the store or the log gives, or that raises.
  abbrev pub lift {ℓ} : {A : Type ℓ} → Result A → Running W C → Outcome A (Running W C)
  lift r s = (r, s)

  -- An update of the run's row; an unknown run raises and leaves the store.
  unfoldable pub set_run : Changes → Running W C → Outcome (Unit {0}) (Running W C)
  set_run changes s = elim (update_run run_id changes s.db) [
    | ok db ↦ (ok tt, record s { db = db })
    | raised e ↦ (raised e, s)
  ]

  -- `finish_run`, and `return self.db.get_run(run_id) or state`.
  unfoldable pub finish : String → Running W C → Outcome Round (Running W C)
  finish reason s = elim (finish_run run_id reason (some s.step) s.db) [
    | ok db ↦ (ok (returned (get_run run_id db)), record s { db = db })
    | raised e ↦ (raised e, s)
  ]

  -- Recovered calls become pending, if there are any.
  unfoldable pub start_recovered : List ToolCall → Running W C → Outcome (Unit {0}) (Running W C)
  start_recovered [] s = (ok tt, s)
  start_recovered (call ∷ calls) s =
      and_then (set_run (tools_changes "RUNNING_TOOLS" s.step (call ∷ calls)) s)
        (λ _ s. (ok tt, record s { pending = call ∷ calls; status = "RUNNING_TOOLS" }))

  -- `if not pending: pending = self._recover_pending_tool_calls(...)` and the update that follows,
  -- on the pending calls.
  unfoldable pub recover_pending : List ToolCall → Running W C → Outcome (Unit {0}) (Running W C)
  recover_pending (call ∷ calls) s = (ok tt, s)
  recover_pending [] s =
      and_then
        (lift
          (recover_pending_tool_calls runtime.codec runtime.to_dict run_id (get_events run_id s.db)
            s.step)
          s)
        start_recovered

  -- The pending calls are executed, and the loop goes on.
  unfoldable pub run_pending : Running W C → Outcome Round (Running W C)
  run_pending s =
      let (r, p) =
        execute_tool_calls runtime.codec run_id s.step runtime.disk (runtime.now s.step) s.pending
          (process_of s) in
      and_then (r, with_process s p)
        (λ results s.
          and_then (set_run (tools_changes "CALLING_LLM" s.step []) (record s { pending = [] }))
            (λ _ s. (ok next_round, record s { status = "CALLING_LLM" })))

  -- A recorded response is processed with the counts of its request.
  unfoldable pub process_recorded :
      Json → Running W C → Outcome ValidatedAgentResponse (Running W C)
  process_recorded response s =
      let request =
        or_else (event_payload (get_events run_id s.db) "llm_request" s.step)
          (object (("message_count", num 0) ∷ ("tokens", num 0) ∷ [])) in
      let counts =
        int_of runtime.convert (or_else (get "message_count" request) (num 0)) >>= (λ count.
          int_of runtime.convert (or_else (get "tokens" request) (num 0))
          >>= (λ tokens. as_fields response >>= (λ fields. ok (count, tokens, fields)))) in
      and_then (lift counts s) (λ (count, tokens, fields) s.
        let (r, t) =
          record_parsed_response runtime.codec runtime.loads run_id s.step fields (nat_of count)
            (nat_of tokens) (session_of s) in
        (r, with_session s t))

  -- `next_step`.
  unfoldable pub next_step : Running W C → ℕ
  next_step s =
      if s.status == "CALLING_LLM"
        && not (eqb s.step 0)
        && not (has_event (get_events run_id s.db) "llm_response" s.step)
      then s.step
      else suc s.step

  -- A new turn of the model.
  unfoldable pub ask : Running W C → Outcome ValidatedAgentResponse (Running W C)
  ask s =
      let step = next_step s in
      and_then (set_run (calling_changes step) (record s { step = step })) (λ _ s.
        let logged =
          log_loop_control runtime.codec runtime.limits run_id s.step
            (step_start_payload s.step runtime.max_steps s.total_cost
              runtime.limits.cost_budget_tokens)
            s.db in
        let (r, t, client) =
          validate_turn runtime.codec runtime.loads runtime.caller run_id task s.step
            (record { db = logged; memory = s.memory }) s.client in
        (r, record (with_session s t) { status = "CALLING_LLM"; client = client }))

  unfoldable pub take_response : Running W C → Outcome ValidatedAgentResponse (Running W C)
  take_response s = elim (recorded_response_to_process (get_events run_id s.db) s.step) [
    | some response ↦ process_recorded response s
    | none ↦ ask s
  ]
