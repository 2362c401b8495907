-- ===== src/Runtime/Pending.antt =====
-- Recovery of parsed tool calls in agent/runtime.py. `to_dict` is `dict(value)` of a value that is no
-- dict and not empty.
use adversarial_agent_runtim.Prelude.{
  ℕ, String, Bool, false, not, ◌&&◌, Option, none, some, List, [], ◌∷◌, ◌==◌, or_else, any, keep,
  map, is_some, if◌then◌else◌,
}
use adversarial_agent_runtim.Json.{
  Json, null, str, list, dict, Fields, end, get, get_field, object, items, to_list, truthy,
}
use adversarial_agent_runtim.Errors.{Result, ok, ◌>>=◌}
use adversarial_agent_runtim.Codec.{Codec, to_text}
use adversarial_agent_runtim.Response.ToolCalls.{ToolCall}
use adversarial_agent_runtim.Database.Schema.{Event}
use adversarial_agent_runtim.Runtime.Keys.{idempotency_key}
use adversarial_agent_runtim.Runtime.Log.{step_is, event_payload}

-- `asdict(call)`.
abbrev pub as_dict : ToolCall → Json
as_dict call = object (
    ("id", str call.id)
    ∷ ("name", str call.name)
    ∷ ("arguments", dict call.arguments)
    ∷ ("raw_arguments", call.raw_arguments)
    ∷ [])

-- The payload of a `tool_calls_parsed` event.
abbrev pub parsed_payload : List ToolCall → Json
parsed_payload calls = object (("tool_calls", list (items (map as_dict calls))) ∷ [])

-- The value, if it is there and not None.
abbrev pub not_none : Option Json → Option Json
not_none none = none
not_none (some null) = none
not_none (some v) = some v

module _ (codec : Codec) (to_dict : Json → Result Fields) where
  -- `dict(value or {})`.
  abbrev pub arguments_from : Json → Result Fields
  arguments_from (dict d) = ok d
  arguments_from value = if truthy value then to_dict value else ok end

  -- `_tool_call_from_dict`.
  unfoldable pub tool_call_from_dict : Fields → Result ToolCall
  tool_call_from_dict item =
      arguments_from (or_else (get_field "arguments" item) null) >>= (λ arguments. ok (record {
        id = to_text codec (or_else (get_field "id" item) null);
        name = to_text codec (or_else (get_field "name" item) null);
        arguments = arguments;
        raw_arguments = or_else (get_field "raw_arguments" item) null;
      }))

  unfoldable pub calls_from : List Json → Result (List ToolCall)
  calls_from [] = ok []
  calls_from (dict item ∷ rest) =
      tool_call_from_dict item >>= (λ call. calls_from rest >>= (λ calls. ok (call ∷ calls)))
  calls_from (other ∷ rest) = calls_from rest

  abbrev pub is_result_at : ℕ → Event → Bool
  is_result_at step event = event.event_type == "tool_result" && step_is step event.step

  -- `str(value) == text`, for a value that is not None.
  abbrev pub value_is : String → Option Json → Bool
  value_is text none = false
  value_is text (some v) = to_text codec v == text

  -- The event puts this key in `completed_keys`, or this id in `completed_call_ids`.
  unfoldable pub completes : ℕ → String → String → Event → Bool
  completes step key call_id event =
      let recorded = not_none (get "idempotency_key" event.payload) in
      is_result_at step event
      && (if is_some recorded
          then value_is key recorded
          else value_is call_id (not_none (get "tool_call_id" event.payload)))

  unfoldable pub is_pending : String → List Event → ℕ → ToolCall → Bool
  is_pending run_id events step call =
      not (any (completes step (idempotency_key codec run_id call) call.id) events)

  abbrev pub pending_among : String → List Event → ℕ → Option Json → Result (List ToolCall)
  pending_among run_id events step (some (list vs)) =
      calls_from (to_list vs) >>= (λ calls. ok (keep (is_pending run_id events step) calls))
  pending_among run_id events step other = ok []

  -- `_recover_pending_tool_calls`.
  unfoldable pub recover_pending_tool_calls : String → List Event → ℕ → Result (List ToolCall)
  recover_pending_tool_calls run_id events step =
      elim (event_payload events "tool_calls_parsed" step) [
        | none ↦ ok []
        | some payload ↦ pending_among run_id events step (get "tool_calls" payload)
      ]
