-- ===== src/Trace/Format.antt =====
-- agent/run.py, `Replayer.replay`, `_format_replay_event` and `_step_prefix`.
use Prim.Native.String.{◌++◌}
use adversarial_agent_runtim.Prelude.{
  String, Option, none, some, List, ◌==◌, if◌then◌else◌, or_else, length, map,
}
use adversarial_agent_runtim.Json.{
  Json, null, str, list, nil, dict, Fields, end, get_field, to_list, truthy,
}
use adversarial_agent_runtim.Errors.{Result, ok, raise, replay_error, ◌>>=◌}
use adversarial_agent_runtim.Codec.{Codec, to_text, text_or}
use adversarial_agent_runtim.Text.{decimal, join}

module _ (codec : Codec) where
  -- `f"{d.get(key)}"`.
  abbrev pub shown : String → Fields → String
  shown key d = to_text codec (or_else (get_field key d) null)

  -- `stable_json(d.get(key, default))`.
  abbrev pub json_of : String → Json → Fields → String
  json_of key default d = codec.stable_json (or_else (get_field key d) default)

  -- `_step_prefix`.
  abbrev pub step_prefix : Option Json → String
  step_prefix none = "step ?: "
  step_prefix (some null) = "step ?: "
  step_prefix (some step) = "step " ++ to_text codec step ++ ": "

  abbrev pub dict_or_empty : Option Json → Fields
  dict_or_empty (some (dict d)) = d
  dict_or_empty other = end

  abbrev pub calls_shown : Option Json → String
  calls_shown (some (list vs)) =
      "count=" ++ decimal (length (to_list vs)) ++ " calls=" ++ codec.stable_json (list vs)
  calls_shown (some other) =
      "count=0 calls=" ++ codec.stable_json (if truthy other then other else list nil)
  calls_shown none = "count=0 calls=" ++ codec.stable_json (list nil)

  abbrev pub call_shown : Fields → String
  call_shown call =
      "name="
      ++ json_of "name" (str "") call
      ++ " id="
      ++ json_of "id" (str "") call
      ++ " arguments="
      ++ json_of "arguments" (dict end) call

  abbrev pub result_shown : Fields → String
  result_shown payload =
      "name="
      ++ json_of "tool_name" (str "") payload
      ++ " id="
      ++ json_of "tool_call_id" (str "") payload
      ++ " ok="
      ++ shown "ok" payload
      ++ " result="
      ++ json_of "result" null payload
      ++ " error="
      ++ json_of "error" null payload

  -- What stands behind the prefix and the type of the event.
  unfoldable pub details : String → Fields → String
  details event_type payload =
      if event_type == "run_started"
      then "task=" ++ json_of "task" (str "") payload
      else if event_type == "llm_request"
      then "messages=" ++ shown "message_count" payload ++ " tokens=" ++ shown "tokens" payload
      else if event_type == "retry"
      then "attempt="
        ++ shown "attempt" payload
        ++ " reason="
        ++ json_of "reason" (str "") payload
        ++ " delay_seconds="
        ++ shown "delay_seconds" payload
      else if event_type == "loop_control"
      then "decision="
        ++ json_of "decision" (str "") payload
        ++ " payload="
        ++ codec.stable_json (dict payload)
      else if event_type == "budget_charged"
      then "step_cost="
        ++ shown "step_cost" payload
        ++ " total_cost="
        ++ shown "total_cost" payload
        ++ " budget="
        ++ shown "budget" payload
      else if event_type == "assistant_message"
      then "content=" ++ json_of "content" (str "") payload
      else if event_type == "tool_parse_error"
      then "error=" ++ json_of "error" (str "") payload
      else if event_type == "tool_calls_parsed"
      then calls_shown (get_field "tool_calls" payload)
      else if event_type == "tool_execution_started"
      then call_shown (dict_or_empty (get_field "tool_call" payload))
      else if event_type == "tool_result"
      then result_shown payload
      else if event_type == "model_contradiction"
      then "reason="
        ++ json_of "reason" (str "") payload
        ++ " targets="
        ++ json_of "matched_targets" (list nil) payload
      else if event_type == "partial_tool_turn"
      then "expected="
        ++ shown "expected_tool_call_count" payload
        ++ " parsed="
        ++ shown "parsed_tool_call_count" payload
      else if event_type == "run_finished"
      then "reason=" ++ json_of "reason" (str "") payload
      else codec.stable_json (dict payload)

  -- `_format_replay_event`.
  unfoldable pub format_replay_event : Fields → String
  format_replay_event event =
      let event_type = text_or codec (get_field "event_type" event) "unknown" in
      step_prefix (get_field "step" event)
      ++ event_type
      ++ " "
      ++ details event_type (dict_or_empty (get_field "payload" event))

-- `replay`, on what the reader finds in the file; `none` stands for an OSError.
unfoldable pub replay :
    Codec → (String → Result (List Fields)) → String → Option String → Result (List String)
replay codec read run_id none = raise replay_error ("No trace found for run_id " ++ run_id)
replay codec read run_id (some text) =
    read text >>= (λ events. ok (map (format_replay_event codec) events))

-- `replay_run`.
unfoldable pub replay_run :
    Codec → (String → Result (List Fields)) → String → Option String → Result String
replay_run codec read run_id file =
    replay codec read run_id file >>= (λ lines. ok (join "\n" lines))
