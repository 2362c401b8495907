-- ===== src/Response/ToolCalls.antt =====
-- agent/response.py: the tool call that becomes of one raw item, and the loop over all of them.
use Prim.Native.String.{◌++◌}
use adversarial_agent_runtim.Prelude.{
  ℕ, suc, String, Bool, true, false, Option, none, some, List, [], ◌∷◌, ◌==◌, if◌then◌else◌,
  or_else,
}
use adversarial_agent_runtim.Json.{
  Json, null, bool, int, float, str, list, dict, Fields, end, get_field, fields, truthy,
}
use adversarial_agent_runtim.Errors.{
  Error, ErrorClass, Result, ok, raise, raised, tool_argument_error, ◌>>=◌,
}
use adversarial_agent_runtim.Codec.{JsonLoads, Codec, to_text}
use adversarial_agent_runtim.Text.{decimal}
use adversarial_agent_runtim.Response.Repair.{repair}

pub record ToolCall : Type 0 where
  pub id : String
  pub name : String
  pub arguments : Fields
  pub raw_arguments : Json

-- `type(value).__name__`.
abbrev pub type_name : Json → String
type_name null = "NoneType"
type_name (bool b) = "bool"
type_name (int i) = "int"
type_name (float r) = "float"
type_name (str s) = "str"
type_name (list vs) = "list"
type_name (dict d) = "dict"

-- The dict that a text was read as.
abbrev pub dict_or_malformed : Option Json → Result Fields
dict_or_malformed (some (dict d)) = ok d
dict_or_malformed other = raise tool_argument_error "malformed tool arguments"

-- The same, with a second try on the repaired text.
abbrev pub dict_or_repaired : JsonLoads → String → Option Json → Result Fields
dict_or_repaired loads s (some (dict d)) = ok d
dict_or_repaired loads s other = loads (repair s) >>= dict_or_malformed

-- `_coerce_arguments`.
unfoldable pub coerce_arguments : JsonLoads → Json → Result Fields
coerce_arguments loads null = ok end
coerce_arguments loads (dict d) = ok d
coerce_arguments loads (str s) = loads s >>= dict_or_repaired loads s
coerce_arguments loads other =
    raise tool_argument_error ("tool arguments must be an object, got " ++ type_name other)

-- A text with something in it.
unfoldable pub valid_name : Json → Option String
valid_name (str s) = if s == "" then none else some s
valid_name other = none

-- `item.get("name") or item.get("tool_name")`, if it is a valid name.
unfoldable pub call_name : Fields → Option String
call_name d =
    let first = or_else (get_field "name" d) null in
    valid_name (if truthy first then first else or_else (get_field "tool_name" d) null)

unfoldable pub raw_arguments_of : Fields → Json
raw_arguments_of d =
    or_else (get_field "arguments" d)
      (or_else (get_field "input" d) (or_else (get_field "args" d) (dict end)))

unfoldable pub call_id : ℕ → ℕ → Option Json → String
call_id step index (some (str s)) =
    if s == "" then "step-" ++ decimal step ++ "-tool-" ++ decimal index else s
call_id step index other = "step-" ++ decimal step ++ "-tool-" ++ decimal index

-- The arguments of a call whose raw arguments are malformed.
abbrev pub malformed_arguments : Codec → Json → Error → Fields
malformed_arguments codec raw e =
    fields (("_malformed_arguments", str (to_text codec raw)) ∷ ("_error", str e.message) ∷ [])

abbrev pub is_argument_error : ErrorClass → Bool
is_argument_error tool_argument_error = true
is_argument_error other = false

-- One item of the loop; an error that is no ToolArgumentError is not caught. It gives its call, if there is one, and its error, if there is one.
abbrev pub with_arguments :
    Codec
    → ℕ
    → ℕ
    → Fields
    → String
    → Json
    → Result Fields
    → Result (Option ToolCall × Option String)
with_arguments codec step index d name raw (ok args) = ok (
  some (record {
    id = call_id step index (get_field "id" d);
    name = name;
    arguments = args;
    raw_arguments = raw;
  }),
  none,
)
with_arguments codec step index d name raw (raised e) =
    if is_argument_error e.class
    then ok (
      some (record {
        id = call_id step index (get_field "id" d);
        name = name;
        arguments = malformed_arguments codec raw e;
        raw_arguments = raw;
      }),
      some e.message,
    )
    else raised e

unfoldable pub parse_item :
    Codec → JsonLoads → ℕ → ℕ → Json → Result (Option ToolCall × Option String)
parse_item codec loads step index (dict d) = elim (call_name d) [
  | none ↦ ok (none, some ("tool call " ++ decimal index ++ " is missing a valid name"))
  | some name ↦
      let raw = raw_arguments_of d in
      with_arguments codec step index d name raw (coerce_arguments loads raw)
]
parse_item codec loads step index other =
    ok (none, some ("tool call " ++ decimal index ++ " is not an object"))

abbrev pub prepend {ℓ} : {A : Type ℓ} → Option A → List A → List A
prepend none xs = xs
prepend (some x) xs = x ∷ xs

-- The loop of `_parse_tool_calls` from the item with this index on.
unfoldable pub parse_items :
    Codec → JsonLoads → ℕ → ℕ → List Json → Result (List ToolCall × List String)
parse_items codec loads step index [] = ok ([], [])
parse_items codec loads step index (item ∷ rest) =
    parse_item codec loads step index item >>= (λ one.
      parse_items codec loads step (suc index) rest
      >>= (λ found. ok (prepend one.0 found.0, prepend one.1 found.1)))
