-- ===== src/Response/Tests.antt =====
-- The theorems on parsed replies at small replies.
use adversarial_agent_runtim.Prelude.{String, ◌≡◌, refl, false, ◌⊎◌, none, List, [], ◌∷◌}
use adversarial_agent_runtim.Json.{Json, Fields, fields, items, object, str, num, list}
use adversarial_agent_runtim.Errors.{Error, ok, raised, builtin}
use adversarial_agent_runtim.Text.{decimal, is_space}
use adversarial_agent_runtim.Codec.{Codec, JsonLoads}
use adversarial_agent_runtim.Response.Repair.{repair, repair_from, closes}
use adversarial_agent_runtim.Response.Source.{in_set, from_content, raw_items}
use adversarial_agent_runtim.Response.ToolCalls.{
  coerce_arguments, raw_arguments_of, valid_name, call_name, call_id, parse_item, parse_items,
}
use adversarial_agent_runtim.Response.Reply.{
  ParsedAgentResponse, assistant_text, is_partial_turn, expected_tool_call_count,
  parse_agent_response,
}
use adversarial_agent_runtim.Response.Repaired.{solid, solid-repair}
use adversarial_agent_runtim.Response.Faithful.{Accounts, parse_agent_response-Accounts}
use adversarial_agent_runtim.Response.Escapes.{parse_agent_response-escapes}

abbrev plain_codec : Codec
plain_codec = record {
  stable_json = λ v. "{}";
  sha256 = λ s. s;
  repr = λ v. "value";
  lower = λ s. s;
}

-- A parser that refuses every text.
abbrev refusing : JsonLoads
refusing text = ok none

-- One call without an id, one with malformed arguments, and one without a name.
abbrev reply : Fields
reply = fields (
    ("message", str "working")
    ∷ (
      "tool_calls",
      list (
          items (
            object (("name", str "read_file") ∷ ("arguments", object (("path", str "a") ∷ [])) ∷ [])
            ∷ object (("id", str "c1") ∷ ("name", str "run_python") ∷ ("input", num 3) ∷ [])
            ∷ object (("id", str "c2") ∷ [])
            ∷ [])),
    )
    ∷ [])

abbrev parsed : ParsedAgentResponse
parsed = record {
  assistant_text = "working";
  tool_calls =
      record {
        id = "step-1-tool-0";
        name = "read_file";
        arguments = fields (("path", str "a") ∷ []);
        raw_arguments = object (("path", str "a") ∷ []);
      }
      ∷ record {
        id = "c1";
        name = "run_python";
        arguments = fields (
            ("_malformed_arguments", str "value")
            ∷ ("_error", str "tool arguments must be an object, got int")
            ∷ []);
        raw_arguments = num 3;
      }
      ∷ [];
  parse_errors =
      "tool arguments must be an object, got int" ∷ "tool call 2 is missing a valid name" ∷ [];
  partial_turn = false;
  expected_tool_call_count = none;
}

parse_runs : parse_agent_response plain_codec refusing reply 1 ≡ ok parsed
unfolding parse_agent_response raw_items from_content parse_items parse_item call_name valid_name
    raw_arguments_of coerce_arguments call_id decimal assistant_text is_partial_turn in_set
    expected_tool_call_count
parse_runs = refl

parse_agent_response-Accounts_example :
    (found : List Json) × (raw_items refusing reply ≡ ok found)
    × Accounts plain_codec refusing 1 0 found parsed.tool_calls parsed.parse_errors
parse_agent_response-Accounts_example =
    parse_agent_response-Accounts plain_codec refusing 1 reply parsed parse_runs

-- A reply whose `finish_reason` is a list.
abbrev unhashable : Fields
unhashable = fields (("message", str "done") ∷ ("finish_reason", list (items [])) ∷ [])

abbrev unhashable_list : Error
unhashable_list = record { class = builtin "TypeError"; message = "unhashable type: 'list'" }

parse_fails : parse_agent_response plain_codec refusing unhashable 1 ≡ raised unhashable_list
unfolding parse_agent_response raw_items from_content parse_items assistant_text is_partial_turn
    in_set
parse_fails = refl

parse_agent_response-escapes_example :
    (unhashable_list.class ≡ builtin "TypeError")
    ⊎ ((s : String) × (refusing s ≡ raised unhashable_list))
parse_agent_response-escapes_example =
    parse_agent_response-escapes plain_codec refusing unhashable 1 unhashable_list parse_fails

solid-repair_example : solid (repair "{\"a\": [1, 2, ], }") ≡ solid "{\"a\": [1, 2, ], }"
solid-repair_example = solid-repair "{\"a\": [1, 2, ], }"

repair_runs : repair "{\"a\": [1, 2, ], }" ≡ "{\"a\": [1, 2]}"
unfolding repair repair_from closes is_space
repair_runs = refl
