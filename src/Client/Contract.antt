-- ===== src/Client/Contract.antt =====
-- The errors that come out of `LLMClient.call`, agent/validate.py.
use adversarial_agent_runtim.Prelude.{◌⊎◌, ℕ, String, ◌≡◌, true, some}
use adversarial_agent_runtim.Json.{Fields}
use adversarial_agent_runtim.Errors.{Result, ok, raised, is_agent_error}
use adversarial_agent_runtim.Client.{
  CircuitBreaker, escaped, Surroundings, LlmClient, Delay, Attempt, done, again,
}

-- A call returns an object, or raises an AgentError, an error of an exchange that the client does not
-- catch, or an error of the sleeper.
abbrev pub IsExplained : Surroundings → Result Fields × LlmClient → Type 0
IsExplained world (ok response, c) = Unit
IsExplained world (raised e, c) =
    (is_agent_error e.class ≡ true)
    ⊎ ((n : ℕ) × (world.exchange n ≡ escaped e))
    ⊎ ((delay : Delay) × (world.sleep delay ≡ some e))

-- The same of an attempt that ends the call.
abbrev AttemptExplained : Surroundings → Attempt → Type 0
AttemptExplained world (done outcome) = IsExplained world outcome
AttemptExplained world (again c) = Unit

abbrev RaisesAgentErrors : Result CircuitBreaker → Type 0
RaisesAgentErrors (ok b) = Unit
RaisesAgentErrors (raised e) = is_agent_error e.class ≡ true
