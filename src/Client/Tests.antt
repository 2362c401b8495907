-- ===== src/Client/Tests.antt =====
-- The client's theorems at short calls.
use adversarial_agent_runtim.Prelude.{
  ℕ, zero, suc, String, ◌≡◌, ◌<◌, refl, true, none, some, [], ◌∷◌, arith, ltb, length,
  if◌then◌else◌,
}
use mathlib.Core.List.{◌++◌ as append}
use adversarial_agent_runtim.Json.{Fields, field, str, dict, end}
use adversarial_agent_runtim.Errors.{
  ok, builtin, raise, network_failure_error, circuit_breaker_open_error,
}
use adversarial_agent_runtim.Client.{
  new_breaker, check, record_success, record_failure, Exchange, body, http_error, Surroundings,
  LlmClient, call, infinity, finite, infinite,
}
use adversarial_agent_runtim.Client.Breaker.{fail_all, check-fail_all}
use adversarial_agent_runtim.Client.Rounds.{is_transient}
use adversarial_agent_runtim.Client.Retry.{call-succeeds, call-exhausts}

abbrev answer : Fields
answer = field "message" (str "done") end

-- The server is overloaded for two exchanges, and then it answers.
abbrev overloaded : ℕ → Exchange
overloaded zero = http_error 529 none "overloaded"
overloaded (suc zero) = http_error 429 (some "2") "slow down"
overloaded (suc (suc n)) = body (dict answer)

abbrev recovering : Surroundings
recovering = record {
  checked_at = 10;
  failed_at = 20;
  exchange = overloaded;
  draw = λ attempt. 0;
  parse_delay = λ header. none;
  sleep = λ delay. none;
}

abbrev always_busy : Surroundings
always_busy = record recovering { exchange = λ attempt. http_error 429 none "busy" }

abbrev fresh_client : LlmClient
fresh_client = record {
  max_retries = 3;
  retry_base_delay = 1;
  breaker = new_breaker 5 60;
  last_retries = [];
}

closed : check 10 (new_breaker 5 60) ≡ ok (new_breaker 5 60)
unfolding check
closed = refl

overloaded_twice : (i : ℕ) → i < 2 → is_transient (overloaded i) ≡ true
overloaded_twice zero small = refl
overloaded_twice (suc zero) small = refl
overloaded_twice (suc (suc n)) small = elim none_left [ ]
  where
    none_left : ⊥
    none_left = omega (arith, small)

call-succeeds_example :
    let (outcome, c') = call recovering fresh_client in
    (outcome ≡ ok answer)
    × (c'.breaker ≡ record_success (new_breaker 5 60))
    × (length c'.last_retries ≡ 2)
call-succeeds_example =
    call-succeeds recovering answer 2 fresh_client (new_breaker 5 60) (λ delay. refl) closed
      (omega arith) overloaded_twice refl

busy_each_time : (i : ℕ) → i < 3 → is_transient (always_busy.exchange i) ≡ true
busy_each_time i small = refl

call-exhausts_example :
    let (outcome, c') = call always_busy fresh_client in
    ((message : String) × (outcome ≡ raise network_failure_error message))
    × (c'.breaker ≡ record_failure 20 (new_breaker 5 60))
    × (length c'.last_retries ≡ 2)
call-exhausts_example =
    call-exhausts always_busy 2 fresh_client (new_breaker 5 60) (λ delay. refl) closed refl
      busy_each_time

check-fail_all_example :
    let b' = fail_all (append (1 ∷ 2 ∷ []) (3 ∷ [])) (record_success (new_breaker 3 60)) in
    check 50 b' ≡ (
      if ltb 3 3
      then ok b'
      else if ltb 50 63
      then raise circuit_breaker_open_error "circuit breaker is open"
      else ok (record b' { failure_count = 0 }))
check-fail_all_example = check-fail_all (new_breaker 3 60) (1 ∷ 2 ∷ []) 3 50

-- A server that asks for an infinite delay, which `time.sleep` refuses.
abbrev endless : Surroundings
endless = record recovering {
  exchange = λ attempt. http_error 429 (some "inf") "slow down";
  parse_delay = λ header. some infinity;
  sleep = λ delay. elim delay [
    | finite n ↦ none
    | infinite ↦ some (record { class = builtin "OverflowError"; message = "timestamp too large" })
  ];
}
