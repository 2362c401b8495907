-- ===== src/Runtime/Log.antt =====
-- What agent/runtime.py reads from the events of a run.
use adversarial_agent_runtim.Prelude.{
  ℕ, String, Bool, false, ◌&&◌, ◌||◌, Option, none, some, List, [], ◌∷◌, ◌==◌, eqb, if◌then◌else◌,
  reverse, is_some,
}
use adversarial_agent_runtim.Json.{Json, ℤ, pos, int}
use adversarial_agent_runtim.Errors.{Result, ok}
use adversarial_agent_runtim.Database.Schema.{Event}

abbrev pub step_is : ℕ → Option ℕ → Bool
step_is n none = false
step_is n (some m) = eqb m n

unfoldable pub first_payload : (Event → Bool) → List Event → Option Json
first_payload test [] = none
first_payload test (event ∷ rest) =
    if test event then some event.payload else first_payload test rest

-- `_event_payload`.
unfoldable pub event_payload : List Event → String → ℕ → Option Json
event_payload events event_type step =
    first_payload (λ event. event.event_type == event_type && step_is step event.step)
      (reverse events)

-- `_has_event`.
unfoldable pub has_event : List Event → String → ℕ → Bool
has_event events event_type step = is_some (event_payload events event_type step)

-- `_recorded_response_to_process`.
unfoldable pub recorded_response_to_process : List Event → ℕ → Option Json
recorded_response_to_process events step =
    if eqb step 0 then none else elim (event_payload events "llm_response" step) [
      | none ↦ none
      | some payload ↦
          if has_event events "tool_calls_parsed" step || has_event events "run_finished" step
          then none
          else some payload
    ]

-- `int(value)` of an integer, and of any other value by the parameter.
abbrev pub int_of : (Json → Result ℤ) → Json → Result ℤ
int_of convert (int i) = ok i
int_of convert value = convert value

-- `type(value) is int and value > 0`, and else the default.
abbrev pub positive_int : Option Json → ℕ → ℕ
positive_int (some (int (pos n))) default = if eqb n 0 then default else n
positive_int other default = default
