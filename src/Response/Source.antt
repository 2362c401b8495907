-- ===== src/Response/Source.antt =====
-- agent/response.py: where `_parse_tool_calls` finds the raw items.
use mathlib.Core.List.{◌++◌ as append}
use adversarial_agent_runtim.Prelude.{
  String, Bool, false, ◌||◌, Option, some, List, [], ◌∷◌, ◌==◌, if◌then◌else◌,
}
use adversarial_agent_runtim.Codec.{JsonLoads}
use adversarial_agent_runtim.Json.{Json, str, list, dict, Fields, get_field, to_list}
use adversarial_agent_runtim.Errors.{Result, ok, raise, builtin, ◌>>=◌}

-- `value in {text, ...}`: a list or a dict cannot be hashed.
unfoldable pub in_set : List String → Option Json → Result Bool
in_set texts (some (list vs)) = raise (builtin "TypeError") "unhashable type: 'list'"
in_set texts (some (dict d)) = raise (builtin "TypeError") "unhashable type: 'dict'"
in_set texts (some (str s)) = ok (any_text texts)
  where
    any_text : List String → Bool
    any_text [] = false
    any_text (t ∷ ts) = s == t || any_text ts
in_set texts other = ok false

abbrev pub list_or_none : Option Json → List Json
list_or_none (some (list vs)) = to_list vs
list_or_none other = []

abbrev pub dict_or_none : Option Json → List Json
dict_or_none (some (dict d)) = dict d ∷ []
dict_or_none other = []

-- The items of a content list that are tool calls.
unfoldable pub content_items : List Json → Result (List Json)
content_items [] = ok []
content_items (dict d ∷ rest) =
    in_set ("tool_use" ∷ "tool_call" ∷ []) (get_field "type" d)
    >>= (λ chosen. content_items rest >>= (λ found. ok (if chosen then dict d ∷ found else found)))
content_items (other ∷ rest) = content_items rest

abbrev pub embedded_items : Option Json → List Json
embedded_items (some (dict d)) =
    append (dict_or_none (get_field "tool_call" d)) (list_or_none (get_field "tool_calls" d))
embedded_items other = []

unfoldable pub from_content : JsonLoads → Option Json → Result (List Json)
from_content loads (some (list vs)) = content_items (to_list vs)
from_content loads (some (str s)) = loads s >>= (λ parsed. ok (embedded_items parsed))
from_content loads other = ok []

-- `raw_items` of `_parse_tool_calls`.
unfoldable pub raw_items : JsonLoads → Fields → Result (List Json)
raw_items loads response = from_content loads (get_field "content" response) >>= (λ found. ok (
    append (list_or_none (get_field "tool_calls" response)) (
      append (dict_or_none (get_field "tool_call" response))
        (append (list_or_none (get_field "tool_use" response)) found))))
