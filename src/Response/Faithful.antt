-- ===== src/Response/Faithful.antt =====
-- The tool calls of a parsed reply, agent/response.py.
use mathlib.Core.Path.{subst}
use adversarial_agent_runtim.Prelude.{
  ℕ, suc, String, ◌≡◌, refl, inl, inr, Option, none, some, List, [], ◌∷◌, Bool-cases, Option-cases,
  ap,
}
use adversarial_agent_runtim.Json.{Json, null, bool, int, float, str, list, dict, Fields}
use adversarial_agent_runtim.Errors.{Error, Result, ok, raised, bind_returns}
use adversarial_agent_runtim.Codec.{Codec, JsonLoads}
use adversarial_agent_runtim.Response.Source.{raw_items}
use adversarial_agent_runtim.Response.ToolCalls.{
  ToolCall, is_argument_error, malformed_arguments, coerce_arguments, call_name, raw_arguments_of,
  with_arguments, parse_item, parse_items, prepend,
}
use adversarial_agent_runtim.Response.Reply.{
  ParsedAgentResponse, assistant_text, is_partial_turn, parse_agent_response,
}
use adversarial_agent_runtim.Response.RawCalls.{
  items_of, IsName, IsRaw, IsId, IsNameless, call_id-IsId, raw_arguments_of-IsRaw, call_name-IsName,
  call_name-IsNameless,
}

module _ (codec : Codec) (loads : JsonLoads) (step : ℕ) where
  -- The calls and the errors that the raw items from an index on give, in the order of the items.
  pub data Accounts : ℕ → List Json → List ToolCall → List String → Type 0 where
    no_items : (index : ℕ) → Accounts index [] [] []
    no_call :
        (index : ℕ) (item : Json) (found : List Json) (calls : List ToolCall) (m : String)
        (errors : List String)
        → IsNameless item
        → Accounts (suc index) found calls errors
        → Accounts index (item ∷ found) calls (m ∷ errors)
    parsed_call :
        (index : ℕ) (d : Fields) (found : List Json) (c : ToolCall) (calls : List ToolCall)
        (errors : List String)
        → IsName d c.name
        → IsId step index d c.id
        → IsRaw d c.raw_arguments
        → coerce_arguments loads c.raw_arguments ≡ ok c.arguments
        → Accounts (suc index) found calls errors
        → Accounts index (dict d ∷ found) (c ∷ calls) errors
    malformed_call :
        (index : ℕ) (d : Fields) (found : List Json) (c : ToolCall) (calls : List ToolCall)
        (e : Error) (errors : List String)
        → IsName d c.name
        → IsId step index d c.id
        → IsRaw d c.raw_arguments
        → coerce_arguments loads c.raw_arguments ≡ raised e
        → c.arguments ≡ malformed_arguments codec c.raw_arguments e
        → Accounts (suc index) found calls errors
        → Accounts index (dict d ∷ found) (c ∷ calls) (e.message ∷ errors)

  -- The same of the call and the error of one item, in front of what the others give.
  abbrev Fronts : ℕ → Json → Option ToolCall × Option String → Type 0
  Fronts index item one =
      (found : List Json) (calls : List ToolCall) (errors : List String)
      → Accounts (suc index) found calls errors
      → Accounts index (item ∷ found) (prepend one.0 calls) (prepend one.1 errors)

  abbrev Returns : ℕ → Json → Result (Option ToolCall × Option String) → Type 0
  Returns index item r =
      (one : Option ToolCall × Option String) → r ≡ ok one → Fronts index item one

  same_one :
      (one one' : Option ToolCall × Option String)
      → Path (Result (Option ToolCall × Option String)) (ok one) (ok one')
      → one ≡ one'
  same_one one one' same = cc

  with_arguments-Returns :
      (index : ℕ) (d : Fields) (name : String) (raw : Json) (r : Result Fields)
      → IsName d name
      → IsRaw d raw
      → coerce_arguments loads raw ≡ r
      → Returns index (dict d) (with_arguments codec step index d name raw r)
  with_arguments-Returns index d name raw (ok args) named given coerced one returned =
      subst (Fronts index (dict d)) (same_one _ one returned) (λ found calls errors rest.
        parsed_call index d found _ calls errors named (call_id-IsId step index d) given coerced
          rest)
  with_arguments-Returns index d name raw (raised e) named given coerced one returned =
      elim (Bool-cases (is_argument_error e.class)) [
        | inl caught ↦
            subst (Fronts index (dict d)) (same_one _ one (rw caught at returned))
              (λ found calls errors rest.
                malformed_call index d found _ calls e errors named (call_id-IsId step index d)
                  given coerced refl rest)
        | inr other ↦
            let impossible : Path (Result (Option ToolCall × Option String)) (raised e) (ok one) =
              rw other at returned in
            cc
      ]

  nameless-Returns :
      (index : ℕ) (item : Json) (m : String)
      → IsNameless item
      → Returns index item (ok (none, some m))
  nameless-Returns index item m nameless one returned =
      subst (Fronts index item) (same_one _ one returned)
        (λ found calls errors rest. no_call index item found calls m errors nameless rest)

  parse_item-Returns :
      (index : ℕ) (item : Json) → Returns index item (parse_item codec loads step index item)
  unfolding parse_item
  parse_item-Returns index (dict d) = elim (Option-cases (call_name d)) [
    | inl nameless ↦
        rw (nameless, parse_item)
          (nameless-Returns index (dict d) _ (call_name-IsNameless d nameless))
    | inr (name, named) ↦
        rw (named, parse_item)
          (with_arguments-Returns index d name (raw_arguments_of d) _
            (call_name-IsName d name named) (raw_arguments_of-IsRaw d) refl)
  ]
  parse_item-Returns index null = nameless-Returns index null _ (λ d name wrong named. cc)
  parse_item-Returns index (bool b) = nameless-Returns index (bool b) _ (λ d name wrong named. cc)
  parse_item-Returns index (int i) = nameless-Returns index (int i) _ (λ d name wrong named. cc)
  parse_item-Returns index (float r) = nameless-Returns index (float r) _ (λ d name wrong named. cc)
  parse_item-Returns index (str s) = nameless-Returns index (str s) _ (λ d name wrong named. cc)
  parse_item-Returns index (list vs) = nameless-Returns index (list vs) _ (λ d name wrong named. cc)

  parse_items-Accounts :
      (index : ℕ) (found : List Json) (calls : List ToolCall) (errors : List String)
      → parse_items codec loads step index found ≡ ok (calls, errors)
      → Accounts index found calls errors
  unfolding parse_items
  parse_items-Accounts index [] calls errors returned =
      let none_called : [] ≡ calls = cc in
      let none_wrong : [] ≡ errors = cc in
      subst (λ xs. Accounts index [] xs errors) none_called
        (subst (Accounts index [] []) none_wrong (no_items index))
  parse_items-Accounts index (item ∷ rest) calls errors returned =
      let (one, read, more) = bind_returns (parse_item codec loads step index item) _ _ returned in
      let ((later, wrong), parsed, same) =
        bind_returns (parse_items codec loads step (suc index) rest) _ _ more in
      let same_calls : prepend one.0 later ≡ calls = cc in
      let same_errors : prepend one.1 wrong ≡ errors = cc in
      subst (λ xs. Accounts index (item ∷ rest) xs errors) same_calls
        (subst (Accounts index (item ∷ rest) (prepend one.0 later)) same_errors (
          parse_item-Returns index item one read rest later wrong
            (parse_items-Accounts (suc index) rest later wrong parsed)))

  -- When a reply is parsed, its calls and parse errors are, item by item and in order, what the raw
  -- items of the reply give: an item without a name gives an error and no call; each other item
  -- gives a call with its name, its id or one made of step and index, its raw arguments, and the
  -- arguments that these are coerced to; where they cannot be, the call holds the report of that,
  -- and there is a parse error with the message.
  pub parse_agent_response-Accounts :
      (response : Fields) (r : ParsedAgentResponse)
      → parse_agent_response codec loads response step ≡ ok r
      → (found : List Json) × (raw_items loads response ≡ ok found)
        × Accounts 0 found r.tool_calls r.parse_errors
  unfolding parse_agent_response
  parse_agent_response-Accounts response r returned =
      let (found, raw, parsed) = bind_returns (raw_items loads response) _ _ returned in
      let (items, read, assembled) =
        bind_returns (parse_items codec loads step 0 found) _ _ parsed in
      let (text, _, settled) = bind_returns (assistant_text codec response) _ _ assembled in
      let (partial, _, finished) = bind_returns (is_partial_turn response) _ _ settled in
      let same : items ≡ items_of (ok r) = ap items_of finished in
      (
        found,
        raw,
        parse_items-Accounts 0 found r.tool_calls r.parse_errors
            (subst (λ x. parse_items codec loads step 0 found ≡ ok x) same read),
      )
