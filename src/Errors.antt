-- ===== src/Errors.antt =====
-- agent/exceptions.py, and `ToolError` of agent/executer.py: the exception classes of the runtime,
-- the base class of each, and the results of calls that may raise. Python's own classes are
-- `builtin`, with their name.
use adversarial_agent_runtim.Prelude.{
  ℕ, zero, suc, String, Bool, true, false, ◌||◌, Option, none, some, ◌≡◌, refl, ◌⊎◌, inl, inr,
}

pub data ErrorClass : Type 0 where
  agent_error agent_base_error agent_config_error network_failure_error network_error : ErrorClass
  circuit_breaker_open_error context_limit_exceeded_error budget_exceeded_error : ErrorClass
  model_contradiction_error partial_tool_turn_error memory_limit_error : ErrorClass
  security_violation_error max_steps_reached_error no_progress_error tool_argument_error :
      ErrorClass
  tool_execution_error replay_error tool_error : ErrorClass
  builtin : String → ErrorClass

-- The class that a class statement names as its base.
base : ErrorClass → Option ErrorClass
base agent_error = none
base (builtin name) = none
base network_error = some network_failure_error
base circuit_breaker_open_error = some network_failure_error
base tool_error = some security_violation_error
base memory_limit_error = some context_limit_exceeded_error
base _ = some agent_error

is_root : ErrorClass → Bool
is_root agent_error = true
is_root _ = false

climb : ℕ → ErrorClass → Bool
climb zero c = is_root c
climb (suc n) c = is_root c || (elim (base c) [ none ↦ false | some b ↦ climb n b ])

-- `isinstance(exc, AgentError)`: no class stands more than two steps below `AgentError`.
unfoldable pub is_agent_error : ErrorClass → Bool
unfolding base is_root climb
is_agent_error c = climb 2 c

-- `type(exc).__name__`.
unfoldable pub class_name : ErrorClass → String
class_name agent_error = "AgentError"
class_name agent_base_error = "AgentBaseError"
class_name agent_config_error = "AgentConfigError"
class_name network_failure_error = "NetworkFailureError"
class_name network_error = "NetworkError"
class_name circuit_breaker_open_error = "CircuitBreakerOpenError"
class_name context_limit_exceeded_error = "ContextLimitExceededError"
class_name budget_exceeded_error = "BudgetExceededError"
class_name model_contradiction_error = "ModelContradictionError"
class_name partial_tool_turn_error = "PartialToolTurnError"
class_name memory_limit_error = "MemoryLimitError"
class_name security_violation_error = "SecurityViolationError"
class_name max_steps_reached_error = "MaxStepsReachedError"
class_name no_progress_error = "NoProgressError"
class_name tool_argument_error = "ToolArgumentError"
class_name tool_execution_error = "ToolExecutionError"
class_name replay_error = "ReplayError"
class_name tool_error = "ToolError"
class_name (builtin name) = name

pub record Error : Type 0 where
  pub class : ErrorClass
  pub message : String

pub data Result {ℓ} (A : Type ℓ) : Type ℓ where
  ok : A → Result A
  raised : Error → Result A

abbrev pub raise {ℓ} : {A : Type ℓ} → ErrorClass → String → Result A
raise c m = raised (record { class = c; message = m })

infixl 5 ◌>>=◌
abbrev pub ◌>>=◌ {ℓ κ} : {A : Type ℓ} {B : Type κ} → Result A → (A → Result B) → Result B
ok a >>= f = f a
raised e >>= f = raised e

pub Result-cases {ℓ} :
    {A : Type ℓ} (r : Result A) → ((a : A) × (r ≡ ok a)) ⊎ ((e : Error) × (r ≡ raised e))
Result-cases (ok a) = inl (a, refl)
Result-cases (raised e) = inr (e, refl)

module _ {ℓ κ} {A : Type ℓ} {B : Type κ} where
  -- The parts of a chain that returns, and of one that raises.
  pub bind_returns :
      (r : Result A) (f : A → Result B) (b : B)
      → (r >>= f) ≡ ok b
      → (a : A) × (r ≡ ok a) × (f a ≡ ok b)
  bind_returns (ok a) f b returned = (a, refl, returned)
  bind_returns (raised e) f b returned = cc

  pub bind_raises :
      (r : Result A) (f : A → Result B) (e : Error)
      → (r >>= f) ≡ raised e
      → (r ≡ raised e) ⊎ ((a : A) × (r ≡ ok a) × (f a ≡ raised e))
  bind_raises (ok a) f e failed = inr (a, refl, failed)
  bind_raises (raised e') f e failed = inl (raised_same e' e failed)
    where
      raised_same :
          (e' e : Error)
          → Path (Result B) (raised e') (raised e)
          → Path (Result A) (raised e') (raised e)
      raised_same e' e same = cc
