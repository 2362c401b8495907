-- ===== src/Client/Retry.antt =====
-- The retry loop of agent/validate.py, round by round and as a whole.
use mathlib.Core.Path.{subst}
use adversarial_agent_runtim.Prelude.{
  ℕ, zero, suc, String, ◌+◌, ◌<◌, ◌≡◌, refl, ap, sym, ◌∙◌, true, false, [], arith, eqb, length,
}
use adversarial_agent_runtim.Json.{Fields, dict}
use adversarial_agent_runtim.Errors.{Result, ok, raise, network_failure_error}
use adversarial_agent_runtim.Client.{
  CircuitBreaker, check, record_success, record_failure, give_up, body, Surroundings, LlmClient,
  done, again, run_attempt, attempts, call,
}
use adversarial_agent_runtim.Client.Rounds.{
  is_transient, Sleeps, Retried, retry_on_transient, last_transient,
}

-- How the loop ends: the result, what it did to the breaker, and the retries that it recorded.
abbrev Ended :
    Result Fields
    → (CircuitBreaker → CircuitBreaker)
    → ℕ
    → LlmClient
    → Result Fields × LlmClient
    → Type 0
Ended r settle n c (r', c') =
    (r' ≡ r)
    × (c'.breaker ≡ settle c.breaker)
    × (length c'.last_retries ≡ length c.last_retries + n)

abbrev TransientBelow : Surroundings → ℕ → ℕ → Type 0
TransientBelow world attempt k =
    (i : ℕ) → i < k → is_transient (world.exchange (attempt + i)) ≡ true

-- The tests of one round, and the hypotheses of the next.
shift :
    (world : Surroundings) (attempt k : ℕ)
    → TransientBelow world attempt (suc k)
    → TransientBelow world (suc attempt) k
shift world attempt k h i small =
    let same : attempt + suc i ≡ suc attempt + i = omega arith in
    subst (λ j. is_transient (world.exchange j) ≡ true) same (h (suc i) (omega arith))

first_transient :
    (world : Surroundings) (attempt k : ℕ)
    → TransientBelow world attempt (suc k)
    → is_transient (world.exchange attempt) ≡ true
first_transient world attempt k h =
    let same : attempt + 0 ≡ attempt = omega arith in
    subst (λ j. is_transient (world.exchange j) ≡ true) same (h 0 (omega arith))

Ended-next :
    (r : Result Fields) (settle : CircuitBreaker → CircuitBreaker) (n : ℕ) (c c' : LlmClient)
    (outcome : Result Fields × LlmClient)
    → Retried 1 c c'
    → Ended r settle n c' outcome
    → Ended r settle (suc n) c outcome
Ended-next r settle n c c' (r', c'') step (same, breaker, recorded) =
    (same, breaker ∙ ap settle step.same_breaker, omega (arith, step.recorded))

round_goes_on :
    (world : Surroundings) (left attempt : ℕ) (c c' : LlmClient) (r : Result Fields)
    (settle : CircuitBreaker → CircuitBreaker) (n : ℕ)
    → run_attempt world attempt (world.exchange attempt) c ≡ again c'
    → Retried 1 c c'
    → Ended r settle n c' (attempts world left (suc attempt) c')
    → Ended r settle (suc n) c (attempts world (suc left) attempt c)
unfolding attempts
round_goes_on world left attempt c c' r settle n e step rest =
    rw (e, attempts) (Ended-next r settle n c c' (attempts world left (suc attempt) c') step rest)

round_ends :
    (world : Surroundings) (left attempt : ℕ) (c : LlmClient) (message : String)
    → run_attempt world attempt (world.exchange attempt) c ≡ done (give_up world message c)
    → Ended
        (raise network_failure_error message)
        (record_failure world.failed_at)
        0
        c
        (attempts world (suc left) attempt c)
unfolding attempts
round_ends world left attempt c message e = rw (e, attempts) (refl, refl, omega arith)

attempts_succeed :
    (world : Surroundings) (parsed : Fields) (k left attempt : ℕ) (c : LlmClient)
    → Sleeps world
    → k < left
    → attempt + left ≡ c.max_retries
    → TransientBelow world attempt k
    → world.exchange (attempt + k) ≡ body (dict parsed)
    → Ended (ok parsed) record_success k c (attempts world left attempt c)
unfolding attempts run_attempt
attempts_succeed world parsed k zero attempt c sleeps room count before found =
    let none_left : ⊥ = omega (arith, room) in elim none_left [ ]
attempts_succeed world parsed zero (suc left) attempt c sleeps room count before found =
    let same : attempt + 0 ≡ attempt = omega arith in
    let here : world.exchange attempt ≡ body (dict parsed) = ap world.exchange (sym same) ∙ found in
    rw (here, attempts) (refl, refl, omega arith)
attempts_succeed world parsed (suc k) (suc left) attempt c sleeps room count before found =
    let first : is_transient (world.exchange attempt) ≡ true =
      first_transient world attempt k before in
    let more : eqb (suc attempt) c.max_retries ≡ false = ground (arith, count) in
    let (c', e, r) =
      retry_on_transient world attempt (world.exchange attempt) c sleeps first more in
    let same : suc attempt + k ≡ attempt + suc k = omega arith in
    let room' : k < left = omega arith in
    let count' : suc attempt + left ≡ c'.max_retries = omega (arith, r.budget) in
    let ih =
      attempts_succeed world parsed k left (suc attempt) c' sleeps room' count'
        (shift world attempt k before) (ap world.exchange same ∙ found) in
    round_goes_on world left attempt c c' (ok parsed) record_success k e r ih

attempts_exhausted :
    (world : Surroundings) (left attempt : ℕ) (c : LlmClient)
    → Sleeps world
    → attempt + suc left ≡ c.max_retries
    → TransientBelow world attempt (suc left)
    → (message : String) × Ended
        (raise network_failure_error message)
        (record_failure world.failed_at)
        left
        c
        (attempts world (suc left) attempt c)
attempts_exhausted world zero attempt c sleeps count before =
    let (message, e) =
      last_transient world attempt (world.exchange attempt) c
        (first_transient world attempt zero before) (ground (arith, count)) in
    (message, round_ends world zero attempt c message e)
attempts_exhausted world (suc left) attempt c sleeps count before =
    let more : eqb (suc attempt) c.max_retries ≡ false = ground (arith, count) in
    let (c', e, r) =
      retry_on_transient world attempt (world.exchange attempt) c sleeps
        (first_transient world attempt (suc left) before) more in
    let (message, ih) =
      attempts_exhausted world left (suc attempt) c' sleeps (omega (arith, r.budget))
        (shift world attempt (suc left) before) in
    (
      message,
      round_goes_on world (suc left) attempt c c' (raise network_failure_error message)
          (record_failure world.failed_at) left e r ih,
    )

zero_plus : (i : ℕ) → 0 + i ≡ i
zero_plus i = omega arith

from_zero :
    (world : Surroundings) (k : ℕ)
    → ((i : ℕ) → i < k → is_transient (world.exchange i) ≡ true)
    → TransientBelow world 0 k
from_zero world k h i small =
    subst (λ j. is_transient (world.exchange j) ≡ true) (sym (zero_plus i)) (h i small)

-- A call that gets through the breaker, where every delay is slept: when the first `k` exchanges, fewer than the attempts, ask
-- for a retry and the next holds an object, the call returns that object, has closed the breaker
-- and has recorded `k` retries.
pub call-succeeds :
    (world : Surroundings) (parsed : Fields) (k : ℕ) (c : LlmClient) (b : CircuitBreaker)
    → Sleeps world
    → check world.checked_at c.breaker ≡ ok b
    → k < c.max_retries
    → ((i : ℕ) → i < k → is_transient (world.exchange i) ≡ true)
    → world.exchange k ≡ body (dict parsed)
    → let (outcome, c') = call world c in
      (outcome ≡ ok parsed) × (c'.breaker ≡ record_success b) × (length c'.last_retries ≡ k)
unfolding call
call-succeeds world parsed k c b sleeps closed room before found =
    let start : LlmClient = record {
      max_retries = c.max_retries;
      retry_base_delay = c.retry_base_delay;
      breaker = b;
      last_retries = [];
    } in
    let ended =
      attempts_succeed world parsed k c.max_retries 0 start sleeps room (zero_plus _)
        (from_zero world k before) (ap world.exchange (zero_plus k) ∙ found) in
    rw (closed, call) (ended.0, ended.1, ended.2 ∙ zero_plus k)

-- A call that gets through the breaker, where every delay is slept, when every exchange asks for a
-- retry: it ends after its attempts with a NetworkFailureError, a failure in the breaker, and one retry fewer than attempts.
pub call-exhausts :
    (world : Surroundings) (left : ℕ) (c : LlmClient) (b : CircuitBreaker)
    → Sleeps world
    → check world.checked_at c.breaker ≡ ok b
    → c.max_retries ≡ suc left
    → ((i : ℕ) → i < suc left → is_transient (world.exchange i) ≡ true)
    → let (outcome, c') = call world c in
      ((message : String) × (outcome ≡ raise network_failure_error message))
      × (c'.breaker ≡ record_failure world.failed_at b)
      × (length c'.last_retries ≡ left)
unfolding call
call-exhausts world left c b sleeps closed budget before =
    let start : LlmClient = record {
      max_retries = suc left;
      retry_base_delay = c.retry_base_delay;
      breaker = b;
      last_retries = [];
    } in
    let (message, ended) =
      attempts_exhausted world left 0 start sleeps (zero_plus _)
        (from_zero world (suc left) before) in
    rw (closed, budget, call) ((message, ended.0), ended.1, ended.2 ∙ zero_plus left)
