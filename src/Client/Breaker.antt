-- ===== src/Client/Breaker.antt =====
-- The circuit breaker of agent/validate.py.
use mathlib.Core.List.{◌++◌ as append}
use adversarial_agent_runtim.Prelude.{
  ℕ, suc, ◌+◌, ◌≡◌, refl, List, [], ◌∷◌, arith, ltb, if◌then◌else◌, length,
}
use adversarial_agent_runtim.Errors.{ok, raise, circuit_breaker_open_error}
use adversarial_agent_runtim.Client.{CircuitBreaker, check, record_success, record_failure}

-- Failures in a row, at these readings of the clock.
abbrev pub fail_all : List ℕ → CircuitBreaker → CircuitBreaker
fail_all [] b = b
fail_all (t ∷ ts) b = fail_all ts (record_failure t b)

fail_all-append :
    (ts : List ℕ) (t : ℕ) (b : CircuitBreaker)
    → fail_all (append ts (t ∷ [])) b ≡ record_failure t (fail_all ts b)
fail_all-append [] t b = refl
fail_all-append (u ∷ ts) t b = fail_all-append ts t (record_failure u b)

-- What failures leave in the breaker.
fail_all_fields :
    (ts : List ℕ) (b : CircuitBreaker)
    → ((fail_all ts b).failure_count ≡ b.failure_count + length ts)
      × ((fail_all ts b).max_failures ≡ b.max_failures)
      × ((fail_all ts b).cooldown ≡ b.cooldown)
unfolding record_failure
fail_all_fields [] b = (omega arith, refl, refl)
fail_all_fields (t ∷ ts) b = ground (arith, fail_all_fields ts (record_failure t b))

-- After a success and then failures in a row, the last of them at time `t`, calls go through while
-- there are fewer failures than the limit. From the limit on they are refused until the cooldown
-- after `t` is over; then the count starts again.
pub check-fail_all :
    (b : CircuitBreaker) (ts : List ℕ) (t now : ℕ)
    → let b' = fail_all (append ts (t ∷ [])) (record_success b) in
      check now b' ≡ (
        if ltb (suc (length ts)) b.max_failures
        then ok b'
        else if ltb now (t + b.cooldown)
        then raise circuit_breaker_open_error "circuit breaker is open"
        else ok (record b' { failure_count = 0 }))
unfolding check record_success record_failure
check-fail_all b ts t now =
    rw fail_all-append (ground (arith, fail_all_fields ts (record_success b)))
