-- ===== src/Response/RawCalls.antt =====
-- What one raw item of a reply says of its call, agent/response.py.
use Prim.Native.String.{◌++◌}
use adversarial_agent_runtim.Prelude.{
  ℕ, String, ◌≡◌, ◌≢◌, refl, ◌⊎◌, inl, inr, Option, none, some, List, [], or_else, false,
  Bool-cases, arith, eq_iff, ap, sym, ◌∙◌, ◌==◌,
}
use adversarial_agent_runtim.Json.{
  Json, null, bool, int, float, str, list, dict, Fields, get_field, end, truthy,
}
use adversarial_agent_runtim.Errors.{Result, ok, raised}
use adversarial_agent_runtim.Text.{decimal}
use adversarial_agent_runtim.Response.Filled.{call_name-filled}
use adversarial_agent_runtim.Response.ToolCalls.{
  ToolCall, valid_name, call_id, call_name, raw_arguments_of,
}
use adversarial_agent_runtim.Response.Reply.{ParsedAgentResponse}

abbrev pub items_of : Result ParsedAgentResponse → List ToolCall × List String
items_of (ok r) = (r.tool_calls, r.parse_errors)
items_of (raised e) = ([], [])

-- The name of a call comes from `name`, or from `tool_name` where `name` is missing or empty.
abbrev pub IsName : Fields → String → Type 0
IsName d name =
    (name ≢ "")
    × ((get_field "name" d ≡ some (str name))
        ⊎ ((truthy (or_else (get_field "name" d) null) ≡ false)
            × (get_field "tool_name" d ≡ some (str name))))

-- The first of the fields that is there holds the raw arguments.
abbrev pub IsRaw : Fields → Json → Type 0
IsRaw d raw =
    (get_field "arguments" d ≡ some raw)
    ⊎ ((get_field "arguments" d ≡ none)
        × ((get_field "input" d ≡ some raw)
            ⊎ ((get_field "input" d ≡ none) × (or_else (get_field "args" d) (dict end) ≡ raw))))

-- The id of a call is that of its item, or is made of the step and the item's index.
abbrev pub IsId : ℕ → ℕ → Fields → String → Type 0
IsId step index d id =
    ((id ≢ "") × (get_field "id" d ≡ some (str id)))
    ⊎ (id ≡ "step-" ++ decimal step ++ "-tool-" ++ decimal index)

abbrev pub IsNameless : Json → Type 0
IsNameless item = (d : Fields) (name : String) → item ≡ dict d → IsName d name → ⊥

valid_name-str : (v : Json) (name : String) → valid_name v ≡ some name → v ≡ str name
unfolding valid_name
valid_name-str (str s) name named = grind (arith, named)
valid_name-str null name named = cc
valid_name-str (bool b) name named = cc
valid_name-str (int i) name named = cc
valid_name-str (float r) name named = cc
valid_name-str (list vs) name named = cc
valid_name-str (dict d) name named = cc

pub call_id-IsId :
    (step index : ℕ) (d : Fields) → IsId step index d (call_id step index (get_field "id" d))
unfolding call_id
call_id-IsId step index d = id_of (get_field "id" d)
  where
    id_of :
        (o : Option Json)
        → ((call_id step index o ≢ "") × (o ≡ some (str (call_id step index o))))
          ⊎ (call_id step index o ≡ "step-" ++ decimal step ++ "-tool-" ++ decimal index)
    id_of (some (str s)) = elim (Bool-cases (s == "")) [
      | inl empty ↦ inr (rw empty)
      | inr filled ↦ inl (λ h. ground (arith, eq_iff s "", filled, h), rw filled)
    ]
    id_of none = inr refl
    id_of (some null) = inr refl
    id_of (some (bool b)) = inr refl
    id_of (some (int i)) = inr refl
    id_of (some (float r)) = inr refl
    id_of (some (list vs)) = inr refl
    id_of (some (dict e)) = inr refl

pub raw_arguments_of-IsRaw : (d : Fields) → IsRaw d (raw_arguments_of d)
unfolding raw_arguments_of
raw_arguments_of-IsRaw d =
    first_of (get_field "arguments" d) (get_field "input" d)
      (or_else (get_field "args" d) (dict end))
  where
    first_of :
        (a b : Option Json) (c : Json)
        → let raw = or_else a (or_else b c) in
          (a ≡ some raw) ⊎ ((a ≡ none) × ((b ≡ some raw) ⊎ ((b ≡ none) × (c ≡ raw))))
    first_of (some v) b c = inl refl
    first_of none (some v) c = inr (refl, inl refl)
    first_of none none c = inr (refl, inr (refl, refl))

pub call_name-IsName : (d : Fields) (name : String) → call_name d ≡ some name → IsName d name
unfolding call_name
call_name-IsName d name named = elim (Bool-cases (truthy (or_else (get_field "name" d) null))) [
  | inl first ↦ (
    call_name-filled d name named,
    inl (there (get_field "name" d) (valid_name-str _ name (rw first at named))),
  )
  | inr second ↦ (
    call_name-filled d name named,
    inr (second, there (get_field "tool_name" d) (valid_name-str _ name (rw second at named))),
  )
]
  where
    there : (o : Option Json) → or_else o null ≡ str name → o ≡ some (str name)
    there none wrong = cc
    there (some v) same = ap some same

IsName-call_name : (d : Fields) (name : String) → IsName d name → call_name d ≡ some name
unfolding call_name valid_name
IsName-call_name d name (filled, place) =
    let nonempty : (name == "") ≡ false = ground (arith, eq_iff name "", filled) in
    elim place [
      | inl first ↦ ground (arith, first, nonempty)
      | inr (empty, second) ↦ rw (empty, second, nonempty)
    ]

pub call_name-IsNameless : (d : Fields) → call_name d ≡ none → IsNameless (dict d)
call_name-IsNameless d nameless d' name same named =
    let found = IsName-call_name d' name named in
    let here : d ≡ d' = cc in
    let wrong : none ≡ some name = sym nameless ∙ ap call_name here ∙ found in cc
