-- ===== src/Runtime/Budget.antt =====
-- `_charge_budget` and `_cost_so_far` of agent/runtime.py. `convert` is `int(value)` for a value
-- that is no integer; the run's tracer writes to a file of its own and is left out.
use Prim.Native.String.{◌++◌}
use adversarial_agent_runtim.Prelude.{
  ℕ, suc, ◌+◌, ◌-◌, String, Bool, false, none, some, List, [], ◌∷◌, ◌==◌, ltb, if◌then◌else◌,
  or_else,
}
use adversarial_agent_runtim.Json.{Json, ℤ, pos, negsuc, int, num, get, object}
use adversarial_agent_runtim.Errors.{Result, ok, raise, budget_exceeded_error, ◌>>=◌}
use adversarial_agent_runtim.Codec.{Codec}
use adversarial_agent_runtim.Text.{decimal}
use adversarial_agent_runtim.Tokenizer.{count_tokens}
use adversarial_agent_runtim.Database.Schema.{Event, Database}
use adversarial_agent_runtim.Database.EventLog.{append_event, get_events}
use adversarial_agent_runtim.Runtime.Config.{RunLimits}
use adversarial_agent_runtim.Runtime.Log.{event_payload, int_of}

-- `a + n` for a number that is not negative.
abbrev pub add_nat : ℤ → ℕ → ℤ
add_nat (pos a) n = pos (a + n)
add_nat (negsuc a) n = if ltb a n then pos (n - suc a) else negsuc (a - n)

-- `a > n`.
abbrev pub above : ℤ → ℕ → Bool
above (pos a) n = ltb n a
above (negsuc a) n = false

abbrev pub charge_key : String → ℕ → String
charge_key run_id step = run_id ++ ":budget_charged:" ++ decimal step

abbrev pub charge_payload : RunLimits → ℕ → ℕ → ℤ → Json
charge_payload limits request_cost response_cost next_total = object (
    ("request_cost", num request_cost)
    ∷ ("response_cost", num response_cost)
    ∷ ("step_cost", num (request_cost + response_cost))
    ∷ ("total_cost", int next_total)
    ∷ ("budget", num limits.cost_budget_tokens)
    ∷ [])

-- The total, unless it is above the budget.
abbrev pub within : RunLimits → ℤ → Result ℤ
within limits total =
    if above total limits.cost_budget_tokens
    then raise budget_exceeded_error "cost budget exceeded"
    else ok total

module _ (codec : Codec) (convert : Json → Result ℤ) (limits : RunLimits) where
  -- `token_count` and `raw_response` are those of the validated response.
  unfoldable pub charge_budget : String → ℕ → Json → ℤ → ℕ → Database → Result ℤ × Database
  charge_budget run_id token_count raw_response total_cost step db =
      elim (event_payload (get_events run_id db) "budget_charged" step) [
        | some existing ↦ (
          int_of convert (or_else (get "total_cost" existing) (int total_cost)) >>= within limits,
          db,
        )
        | none ↦
            let response_cost = count_tokens (codec.stable_json raw_response) in
            let next_total = add_nat total_cost (token_count + response_cost) in
            let payload = charge_payload limits token_count response_cost next_total in
            let (inserted, charged) =
              append_event run_id "budget_charged" payload (some step)
                (some (charge_key run_id step)) db in
            (within limits next_total, charged)
      ]

  unfoldable pub cost_from : ℤ → List Event → Result ℤ
  cost_from total [] = ok total
  cost_from total (event ∷ events) =
      if event.event_type == "budget_charged"
      then int_of convert (or_else (get "total_cost" event.payload) (int total))
        >>= (λ next. cost_from next events)
      else cost_from total events

  unfoldable pub cost_so_far : List Event → Result ℤ
  unfolding cost_from
  cost_so_far events = cost_from (pos 0) events
