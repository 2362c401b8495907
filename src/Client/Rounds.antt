-- ===== src/Client/Rounds.antt =====
-- One round of the retry loop of agent/validate.py.
use Prim.Native.String.{◌++◌}
use adversarial_agent_runtim.Text.{decimal}
use adversarial_agent_runtim.Prelude.{
  ℕ, suc, String, ◌+◌, ◌≡◌, Option, none, refl, ◌∙◌, Bool, true, false, eqb, length, length-append,
}
use adversarial_agent_runtim.Json.{Json, dict}
use adversarial_agent_runtim.Client.{
  retry_delay, handle_failed, give_up, Exchange, body, http_error, failed, escaped, Surroundings,
  Delay, with_retry, LlmClient, record_retry, done, again, retryable, run_attempt,
}

-- An exchange after which another attempt is made, if one is left.
abbrev pub is_transient : Exchange → Bool
is_transient (body (dict parsed)) = false
is_transient (body other) = true
is_transient (http_error code header reason) = retryable code
is_transient (failed name message) = true
is_transient (escaped e) = false

-- `c` with more retries recorded, otherwise as it was.
pub record Retried (n : ℕ) (c c' : LlmClient) : Type 0 where
  pub budget : c'.max_retries ≡ c.max_retries
  pub same_breaker : c'.breaker ≡ c.breaker
  pub recorded : length c'.last_retries ≡ length c.last_retries + n

-- Every delay is slept.
abbrev pub Sleeps : Surroundings → Type 0
Sleeps world = (delay : Delay) → world.sleep delay ≡ none

record_retry-Retried :
    (world : Surroundings) (attempt : ℕ) (reason : String) (delay : Delay) (c : LlmClient)
    → Sleeps world
    → (c' : LlmClient) × (record_retry world attempt reason delay c ≡ again c') × Retried 1 c c'
unfolding record_retry
record_retry-Retried world attempt reason delay c sleeps = (
  with_retry attempt reason delay c,
  rw (sleeps delay, record_retry),
  record { budget = refl; same_breaker = refl; recorded = length-append c.last_retries _ },
)

-- The round of the second handler.
handle_failed_retries :
    (world : Surroundings) (attempt : ℕ) (name message : String) (c : LlmClient)
    → Sleeps world
    → eqb (suc attempt) c.max_retries ≡ false
    → (c' : LlmClient) × (handle_failed world attempt name message c ≡ again c') × Retried 1 c c'
handle_failed_retries world attempt name message c sleeps more =
    rw more (record_retry-Retried world attempt name (retry_delay world c attempt none) c sleeps)

handle_failed_ends :
    (world : Surroundings) (attempt : ℕ) (name message : String) (c : LlmClient)
    → eqb (suc attempt) c.max_retries ≡ true
    → handle_failed world attempt name message c
      ≡ done (give_up world ("mock server failed: " ++ message) c)
handle_failed_ends world attempt name message c last = rw last

-- `run_attempt` on a body that is no object.
other_body :
    (world : Surroundings) (attempt : ℕ) (parsed : Json) (c : LlmClient)
    → is_transient (body parsed) ≡ true
    → run_attempt world attempt (body parsed) c
      ≡ handle_failed world attempt "TypeError" "mock server response must be an object" c
unfolding run_attempt
other_body world attempt (dict parsed) c transient = cc
other_body world attempt other c transient = refl

http_error_retries :
    (world : Surroundings) (attempt code : ℕ) (header : Option String) (reason : String)
    (c : LlmClient)
    → retryable code ≡ true
    → eqb (suc attempt) c.max_retries ≡ false
    → run_attempt world attempt (http_error code header reason) c
      ≡ record_retry world attempt ("HTTP " ++ decimal code) (retry_delay world c attempt header) c
unfolding run_attempt
http_error_retries world attempt code header reason c transient more = rw (transient, more)

http_error_ends :
    (world : Surroundings) (attempt code : ℕ) (header : Option String) (reason : String)
    (c : LlmClient)
    → retryable code ≡ true
    → eqb (suc attempt) c.max_retries ≡ true
    → run_attempt world attempt (http_error code header reason) c
      ≡ done (give_up world ("HTTP " ++ decimal code ++ ": " ++ reason) c)
unfolding run_attempt
http_error_ends world attempt code header reason c transient last = rw (transient, last)

failed_retries :
    (world : Surroundings) (attempt : ℕ) (name message : String) (c : LlmClient)
    → Sleeps world
    → eqb (suc attempt) c.max_retries ≡ false
    → (c' : LlmClient) × (run_attempt world attempt (failed name message) c ≡ again c')
      × Retried 1 c c'
unfolding run_attempt
failed_retries world attempt name message c sleeps more =
    handle_failed_retries world attempt name message c sleeps more

failed_ends :
    (world : Surroundings) (attempt : ℕ) (name message : String) (c : LlmClient)
    → eqb (suc attempt) c.max_retries ≡ true
    → run_attempt world attempt (failed name message) c
      ≡ done (give_up world ("mock server failed: " ++ message) c)
unfolding run_attempt
failed_ends world attempt name message c last = handle_failed_ends world attempt name message c last

pub retry_on_transient :
    (world : Surroundings) (attempt : ℕ) (x : Exchange) (c : LlmClient)
    → Sleeps world
    → is_transient x ≡ true
    → eqb (suc attempt) c.max_retries ≡ false
    → (c' : LlmClient) × (run_attempt world attempt x c ≡ again c') × Retried 1 c c'
retry_on_transient world attempt (body parsed) c sleeps transient more =
    let (c', e, r) =
      handle_failed_retries world attempt "TypeError" "mock server response must be an object" c
        sleeps more in
    (c', other_body world attempt parsed c transient ∙ e, r)
retry_on_transient world attempt (http_error code header reason) c sleeps transient more =
    let (c', e, r) =
      record_retry-Retried world attempt ("HTTP " ++ decimal code)
        (retry_delay world c attempt header) c sleeps in
    (c', http_error_retries world attempt code header reason c transient more ∙ e, r)
retry_on_transient world attempt (failed name message) c sleeps transient more =
    failed_retries world attempt name message c sleeps more
retry_on_transient world attempt (escaped e) c sleeps transient more = cc

-- The last attempt that is left fails on a transient exchange.
pub last_transient :
    (world : Surroundings) (attempt : ℕ) (x : Exchange) (c : LlmClient)
    → is_transient x ≡ true
    → eqb (suc attempt) c.max_retries ≡ true
    → (message : String) × (run_attempt world attempt x c ≡ done (give_up world message c))
last_transient world attempt (body parsed) c transient last = (
  "mock server failed: mock server response must be an object",
  other_body world attempt parsed c transient
      ∙ handle_failed_ends world attempt "TypeError" "mock server response must be an object" c
          last,
)
last_transient world attempt (http_error code header reason) c transient last = (
  "HTTP " ++ decimal code ++ ": " ++ reason,
  http_error_ends world attempt code header reason c transient last,
)
last_transient world attempt (failed name message) c transient last =
    ("mock server failed: " ++ message, failed_ends world attempt name message c last)
last_transient world attempt (escaped e) c transient last = cc
