-- ===== src/Runtime/Recovered.antt =====
-- Parsed tool calls in the log of agent/runtime.py.
use adversarial_agent_runtim.Prelude.{
  ℕ, String, Bool, false, ◌&&◌, ◌≡◌, refl, ap, ◌∙◌, some, List, [], ◌∷◌, ◌++◌, ◌==◌, arith, any,
  keep, map,
}
use adversarial_agent_runtim.Json.{Json, Fields, items, to_list}
use adversarial_agent_runtim.Errors.{Result, ok}
use adversarial_agent_runtim.Codec.{Codec}
use adversarial_agent_runtim.Response.ToolCalls.{ToolCall}
use adversarial_agent_runtim.Database.Schema.{Event, Database}
use adversarial_agent_runtim.Database.EventLog.{key_recorded, append_event, new_event, get_events}
use adversarial_agent_runtim.Runtime.Keys.{idempotency_key}
use adversarial_agent_runtim.Runtime.Log.{step_is, event_payload}
use adversarial_agent_runtim.Runtime.Pending.{
  as_dict, parsed_payload, tool_call_from_dict, calls_from, is_result_at, completes, is_pending,
  recover_pending_tool_calls,
}
use adversarial_agent_runtim.Runtime.Appended.{get_events-append_event, first_payload-append_one}

module _ (codec : Codec) (to_dict : Json → Result Fields) where
  calls_from-as_dict :
      (calls : List ToolCall)
      → calls_from codec to_dict (to_list (items (map as_dict calls))) ≡ ok calls
  unfolding calls_from tool_call_from_dict
  calls_from-as_dict [] = refl
  calls_from-as_dict (call ∷ calls) = rw (calls_from-as_dict calls)

  -- Without a tool result at the step no call of it is completed.
  nothing_completes :
      (step : ℕ) (key call_id : String) (events : List Event)
      → any (is_result_at codec to_dict step) events ≡ false
      → any (completes codec to_dict step key call_id) events ≡ false
  unfolding completes
  nothing_completes step key call_id [] h = refl
  nothing_completes step key call_id (e ∷ events) h =
      ground (arith, h, nothing_completes step key call_id events)

  all_pending :
      (run_id : String) (events : List Event) (step : ℕ) (calls : List ToolCall)
      → any (is_result_at codec to_dict step) events ≡ false
      → keep (is_pending codec to_dict run_id events step) calls ≡ calls
  unfolding is_pending
  all_pending run_id events step [] h = refl
  all_pending run_id events step (call ∷ calls) h = rw (
    nothing_completes step (idempotency_key codec run_id call) call.id events h,
    all_pending run_id events step calls h,
  )

  any-append_one :
      (test : Event → Bool) (events : List Event) (event : Event)
      → any test events ≡ false
      → test event ≡ false
      → any test (events ++ event ∷ []) ≡ false
  any-append_one test [] event h last = ground (arith, last)
  any-append_one test (e ∷ events) event h last =
      ground (arith, h, any-append_one test events event, last)

  parsed_event_found :
      (run_id k : String) (calls : List ToolCall) (step : ℕ) (events : List Event)
      → event_payload
          (events
            ++ new_event run_id "tool_calls_parsed" (parsed_payload calls) (some step) (some k)
              ∷ [])
          "tool_calls_parsed"
          step
        ≡ some (parsed_payload calls)
  unfolding event_payload
  parsed_event_found run_id k calls step events =
      first_payload-append_one
        (λ event. event.event_type == "tool_calls_parsed" && step_is step event.step) events
        (new_event run_id "tool_calls_parsed" (parsed_payload calls) (some step) (some k))
      ∙ ground arith

  recovered_from :
      (run_id : String) (events : List Event) (step : ℕ) (calls : List ToolCall)
      → event_payload events "tool_calls_parsed" step ≡ some (parsed_payload calls)
      → any (is_result_at codec to_dict step) events ≡ false
      → recover_pending_tool_calls codec to_dict run_id events step ≡ ok calls
  unfolding recover_pending_tool_calls
  recovered_from run_id events step calls found none_done =
      rw (found, recover_pending_tool_calls, calls_from-as_dict calls)
        (ap ok (all_pending run_id events step calls none_done))

  -- When a batch of calls is recorded under a key that is not recorded yet, at a step without a tool
  -- result, a process that starts again recovers exactly that batch from the log, in order and with
  -- all arguments.
  pub recover-append_event :
      (run_id k : String) (calls : List ToolCall) (step : ℕ) (db : Database)
      → key_recorded k db.events ≡ false
      → any (is_result_at codec to_dict step) (get_events run_id db) ≡ false
      → let recorded =
          (append_event run_id "tool_calls_parsed"
            (parsed_payload calls)
            (some step)
            (some k)
            db).1 in
        recover_pending_tool_calls codec to_dict run_id (get_events run_id recorded) step ≡ ok calls
  recover-append_event run_id k calls step db new none_done =
      rw
        (get_events-append_event run_id "tool_calls_parsed" k (parsed_payload calls) (some step) db
          new)
        (recovered_from run_id _ step calls
          (parsed_event_found run_id k calls step (get_events run_id db))
          (any-append_one (is_result_at codec to_dict step) (get_events run_id db) _ none_done
            refl))
