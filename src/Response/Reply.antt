-- ===== src/Response/Reply.antt =====
-- agent/response.py: `parse_agent_response` and the parts of the reply that are no tool calls.
use adversarial_agent_runtim.Prelude.{
  ℕ, suc, String, Bool, true, false, ◌&&◌, ◌||◌, Option, none, some, List, [], ◌∷◌, ◌==◌, eqb,
  if◌then◌else◌, or_else, length,
}
use adversarial_agent_runtim.Json.{
  pos, Json, bool, int, str, list, dict, cons, Fields, get_field, to_list, truthy,
}
use adversarial_agent_runtim.Errors.{Result, ok, raise, builtin, ◌>>=◌}
use adversarial_agent_runtim.Codec.{JsonLoads, Codec, text_or}
use adversarial_agent_runtim.Text.{join}
use adversarial_agent_runtim.Response.Source.{in_set, raw_items}
use adversarial_agent_runtim.Response.ToolCalls.{ToolCall, parse_items}

pub record ParsedAgentResponse : Type 0 where
  pub assistant_text : String
  pub tool_calls : List ToolCall
  pub parse_errors : List String
  pub partial_turn : Bool
  pub expected_tool_call_count : Option ℕ

-- One item of a content list, in front of the parts behind it: only texts can be joined.
-- Python's message names the position and the type as well.
abbrev pub join_part : Json → Result (List String) → Result (List String)
join_part (str s) rest = rest >>= (λ parts. ok (s ∷ parts))
join_part other rest = raise (builtin "TypeError") "sequence item: expected str instance"

abbrev pub text_part : Option Json → Json → Result (List String) → Result (List String)
text_part (some (str kind)) part rest =
    if kind == "text" && truthy part then join_part part rest else rest
text_part other part rest = rest

unfoldable pub text_parts : List Json → Result (List String)
text_parts [] = ok []
text_parts (dict d ∷ rest) =
    text_part (get_field "type" d) (or_else (get_field "text" d) (str "")) (text_parts rest)
text_parts (other ∷ rest) = text_parts rest

abbrev pub content_text : Codec → Fields → Option Json → Result String
content_text codec response (some (str s)) = ok s
content_text codec response (some (list vs)) =
    text_parts (to_list vs) >>= (λ parts. ok (join "\n" parts))
content_text codec response other = ok (text_or codec (get_field "message" response) "")

unfoldable pub assistant_text : Codec → Fields → Result String
assistant_text codec response = content_text codec response (get_field "content" response)

abbrev pub is_true : Option Json → Bool
is_true (some (bool b)) = b
is_true other = false

abbrev pub interrupted_reasons : List String
interrupted_reasons =
    "interrupted" ∷ "partial" ∷ "partial_tool_calls" ∷ "tool_call_interrupted"
    ∷ "tool_calls_interrupted" ∷ []

unfoldable pub is_partial_turn : Fields → Result Bool
is_partial_turn response =
    if is_true (get_field "partial" response) || is_true (get_field "interrupted" response)
    then ok true
    else in_set interrupted_reasons (get_field "finish_reason" response)

unfoldable pub expected_tool_call_count : Fields → Option ℕ
expected_tool_call_count response = from (get_field "expected_tool_call_count" response)
  where
    listed : Option Json → Option ℕ
    listed (some (list (cons v vs))) = some (suc (length (to_list vs)))
    listed other = none

    from : Option Json → Option ℕ
    from (some (int (pos n))) =
        if eqb n 0 then listed (get_field "expected_tool_calls" response) else some n
    from other = listed (get_field "expected_tool_calls" response)

unfoldable pub parse_agent_response : Codec → JsonLoads → Fields → ℕ → Result ParsedAgentResponse
parse_agent_response codec loads response step = raw_items loads response >>= (λ found.
    parse_items codec loads step 0 found >>= (λ items. assistant_text codec response >>= (λ text.
      is_partial_turn response >>= (λ partial. ok (record {
        assistant_text = text;
        tool_calls = items.0;
        parse_errors = items.1;
        partial_turn = partial;
        expected_tool_call_count = expected_tool_call_count response;
      })))))
