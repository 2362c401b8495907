-- ===== src/Runtime/Keys.antt =====
-- The idempotency keys of agent/runtime.py.
use Prim.Native.String.{◌++◌}
use adversarial_agent_runtim.Prelude.{
  ℕ, Bool, String, Option, List, [], ◌∷◌, ◌==◌, if◌then◌else◌, or_else, map,
}
use adversarial_agent_runtim.Json.{Json, null, str, list, dict, get_field, object, items}
use adversarial_agent_runtim.Codec.{Codec}
use adversarial_agent_runtim.Text.{decimal}
use adversarial_agent_runtim.Response.ToolCalls.{ToolCall}

-- `ToolResult`.
pub record ToolResult : Type 0 where
  pub tool_call_id : String
  pub tool_name : String
  pub ok : Bool
  pub result : Json
  pub error : Option String
  pub idempotency_key : Option String

-- `hashlib.sha256(stable_json(value).encode("utf-8")).hexdigest()`.
abbrev pub digest_of : Codec → Json → String
digest_of codec value = codec.sha256 (codec.stable_json value)

-- `ToolCall.key_material`.
abbrev pub key_material : ToolCall → Json
key_material call =
    object (("id", str call.id) ∷ ("name", str call.name) ∷ ("arguments", dict call.arguments) ∷ [])

abbrev pub argument : String → ToolCall → Json
argument k call = or_else (get_field k call.arguments) null

abbrev pub email_material : String → ToolCall → Json
email_material run_id call = object (
    ("run_id", str run_id)
    ∷ ("tool_name", str call.name)
    ∷ (
      "logical_email",
      object (
          ("to", argument "to" call)
          ∷ ("subject", argument "subject" call)
          ∷ ("body", argument "body" call)
          ∷ []),
    )
    ∷ [])

unfoldable pub idempotency_key : Codec → String → ToolCall → String
idempotency_key codec run_id call =
    if call.name == "send_email"
    then digest_of codec (email_material run_id call)
    else digest_of codec (object (("run_id", str run_id) ∷ ("tool_call", key_material call) ∷ []))

-- `_event_key`.
unfoldable pub event_key : Codec → String → String → ℕ → Json → String
event_key codec run_id event_type step payload =
    run_id ++ ":" ++ event_type ++ ":" ++ decimal step ++ ":" ++ digest_of codec payload

-- `_tool_event_key`.
unfoldable pub tool_event_key : String → String → ℕ → ℕ → String → String
tool_event_key run_id event_type step index key =
    run_id ++ ":" ++ event_type ++ ":" ++ decimal step ++ ":" ++ decimal index ++ ":" ++ key

-- `_tool_result_event_key`; an empty key counts as none.
unfoldable pub tool_result_event_key : Codec → String → ℕ → ℕ → ToolResult → String
tool_result_event_key codec run_id step index result = with_key (or_else result.idempotency_key "")
  where
    with_key : String → String
    with_key key =
        if key == ""
        then event_key codec run_id "tool_result" step (
            object (
              ("tool_call_id", str result.tool_call_id) ∷ ("tool_name", str result.tool_name) ∷ []))
        else if result.tool_name == "send_email"
        then "result:" ++ key
        else tool_event_key run_id "tool_result" step index key

-- `_tool_progress_digest`: the ids of the calls do not count.
unfoldable pub tool_progress_digest : Codec → List ToolCall → String
tool_progress_digest codec calls = digest_of codec (list (items (map material calls)))
  where
    material : ToolCall → Json
    material call = object (("name", str call.name) ∷ ("arguments", dict call.arguments) ∷ [])
