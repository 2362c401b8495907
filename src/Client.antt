-- ===== src/Client.antt =====
-- agent/validate.py, `CircuitBreaker` and `LLMClient`. Times are counted in a unit fine enough for
-- the clock and the delays. What the server and the network do is a parameter: the exchange that
-- each attempt meets, the draws of the random generator, the meaning of `float(text)` and the sleeper.
-- The backoff is a number: fewer than 1024 attempts, as its power of two is a float.
pub mod Breaker
pub mod Rounds
pub mod Retry
pub mod Contract
mod Tests
use Prim.Native.String.{◌++◌}
use mathlib.Core.List.{◌++◌ as append}
use adversarial_agent_runtim.Prelude.{
  ℕ, zero, suc, ◌+◌, ◌*◌, ◌^◌, String, Bool, true, false, not, ◌||◌, Option, none, some, List, [],
  ◌∷◌, ◌==◌, eqb, ltb, leb, if◌then◌else◌,
}
use adversarial_agent_runtim.Json.{ℤ, pos, negsuc, Json, dict, Fields}
use adversarial_agent_runtim.Text.{decimal}
use adversarial_agent_runtim.Errors.{
  Error, Result, ok, raise, raised, network_failure_error, circuit_breaker_open_error, ◌>>=◌,
}

pub record CircuitBreaker : Type 0 where
  pub max_failures : ℕ
  pub cooldown : ℕ
  pub failure_count : ℕ
  pub opened_at : ℕ

abbrev pub new_breaker : ℕ → ℕ → CircuitBreaker
new_breaker max_failures cooldown = record {
  max_failures = max_failures;
  cooldown = cooldown;
  failure_count = 0;
  opened_at = 0;
}

-- `check`, with the reading of the clock; `clock() - opened_at < cooldown`.
unfoldable pub check : ℕ → CircuitBreaker → Result CircuitBreaker
check now b =
    if ltb b.failure_count b.max_failures
    then ok b
    else if ltb now (b.opened_at + b.cooldown)
    then raise circuit_breaker_open_error "circuit breaker is open"
    else ok (record b { failure_count = 0 })

unfoldable pub record_success : CircuitBreaker → CircuitBreaker
record_success b = record b { failure_count = 0; opened_at = 0 }

unfoldable pub record_failure : ℕ → CircuitBreaker → CircuitBreaker
record_failure now b =
    if leb b.max_failures (suc b.failure_count)
    then record b { failure_count = suc b.failure_count; opened_at = now }
    else record b { failure_count = suc b.failure_count }

-- A delay of `sleep`: a number of units, or infinity.
pub data Delay : Type 0 where
  finite : ℕ → Delay
  infinite : Delay

-- What `float(text)` may be.
pub data FloatValue : Type 0 where
  number : ℤ → FloatValue
  infinity minus_infinity not_a_number : FloatValue

pub record RetryEvent : Type 0 where
  pub attempt : ℕ
  pub reason : String
  pub delay : Delay

-- What one request meets: a body and what `json.loads` makes of it, an HTTPError with its
-- Retry-After header, another error that the client catches, or one that it does not.
pub data Exchange : Type 0 where
  body : Json → Exchange
  http_error : ℕ → Option String → String → Exchange
  failed : String → String → Exchange
  escaped : Error → Exchange

-- The surroundings of one call: the clock when `check` and when `record_failure` read it, the
-- exchange and the random draw of each attempt, `float` of a header in the unit of time, with `none`
-- for a ValueError, and the sleeper, with the error that it raises on a delay, if it does.
pub record Surroundings : Type 0 where
  pub checked_at : ℕ
  pub failed_at : ℕ
  pub exchange : ℕ → Exchange
  pub draw : ℕ → ℕ
  pub parse_delay : String → Option FloatValue
  pub sleep : Delay → Option Error

pub record LlmClient : Type 0 where
  pub max_retries : ℕ
  pub retry_base_delay : ℕ
  pub breaker : CircuitBreaker
  pub last_retries : List RetryEvent

-- `max(0.0, delay)`; no comparison with nan holds.
abbrev pub not_negative : FloatValue → Delay
not_negative (number (pos n)) = finite n
not_negative (number (negsuc n)) = finite 0
not_negative infinity = infinite
not_negative minus_infinity = finite 0
not_negative not_a_number = finite 0

abbrev pub backoff : Surroundings → LlmClient → ℕ → Delay
backoff world c attempt = finite (c.retry_base_delay * 2 ^ attempt + world.draw attempt)

-- `_retry_delay`; an empty header, or one that is no number, is passed over.
unfoldable pub retry_delay : Surroundings → LlmClient → ℕ → Option String → Delay
retry_delay world c attempt none = backoff world c attempt
retry_delay world c attempt (some header) =
    if header == "" then backoff world c attempt else elim (world.parse_delay header) [
      | none ↦ backoff world c attempt
      | some delay ↦ not_negative delay
    ]

-- The end of one attempt: the call's outcome, or the client with which the loop goes on.
pub data Attempt : Type 0 where
  done : Result Fields × LlmClient → Attempt
  again : LlmClient → Attempt

abbrev pub with_retry : ℕ → String → Delay → LlmClient → LlmClient
with_retry attempt reason delay c = record c {
  last_retries =
      append c.last_retries (record { attempt = suc attempt; reason = reason; delay = delay } ∷ []);
}

-- `_record_retry`: an error of the sleeper comes out of the handler, and of the call.
unfoldable pub record_retry : Surroundings → ℕ → String → Delay → LlmClient → Attempt
record_retry world attempt reason delay c = elim (world.sleep delay) [
  | none ↦ again (with_retry attempt reason delay c)
  | some e ↦ done (raised e, with_retry attempt reason delay c)
]

abbrev pub with_breaker : LlmClient → CircuitBreaker → LlmClient
with_breaker c b = record c { breaker = b }

abbrev pub give_up : Surroundings → String → LlmClient → Result Fields × LlmClient
give_up world message c =
    (raise network_failure_error message, with_breaker c (record_failure world.failed_at c.breaker))

-- The second handler: URLError, TimeoutError, JSONDecodeError, ValueError and TypeError.
abbrev pub handle_failed : Surroundings → ℕ → String → String → LlmClient → Attempt
handle_failed world attempt name message c =
    if eqb (suc attempt) c.max_retries
    then done (give_up world ("mock server failed: " ++ message) c)
    else record_retry world attempt name (retry_delay world c attempt none) c

abbrev pub retryable : ℕ → Bool
retryable code = eqb code 429 || eqb code 529

unfoldable pub run_attempt : Surroundings → ℕ → Exchange → LlmClient → Attempt
run_attempt world attempt (body (dict parsed)) c =
    done (ok parsed, with_breaker c (record_success c.breaker))
run_attempt world attempt (body parsed) c =
    handle_failed world attempt "TypeError" "mock server response must be an object" c
run_attempt world attempt (http_error code retry_after reason) c =
    if not (retryable code) || eqb (suc attempt) c.max_retries
    then done (give_up world ("HTTP " ++ decimal code ++ ": " ++ reason) c)
    else record_retry world attempt ("HTTP " ++ decimal code)
        (retry_delay world c attempt retry_after) c
run_attempt world attempt (failed name message) c = handle_failed world attempt name message c
run_attempt world attempt (escaped e) c = done (raised e, c)

-- `for attempt in range(max_retries)`, with the rounds that are left. The code behind the loop
-- fails once more.
unfoldable pub attempts : Surroundings → ℕ → ℕ → LlmClient → Result Fields × LlmClient
attempts world zero attempt c = give_up world "mock server failed: None" c
attempts world (suc left) attempt c = elim (run_attempt world attempt (world.exchange attempt) c) [
  | done outcome ↦ outcome
  | again c' ↦ attempts world left (suc attempt) c'
]

-- `LLMClient.call`.
unfoldable pub call : Surroundings → LlmClient → Result Fields × LlmClient
call world c = elim (check world.checked_at c.breaker) [
  | raised e ↦ (raised e, c)
  | ok breaker ↦ attempts world c.max_retries 0 (record c { breaker = breaker; last_retries = [] })
]
