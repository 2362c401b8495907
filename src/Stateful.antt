-- ===== src/Stateful.antt =====
-- Python code that changes a state and may raise: a raised error leaves the state that the code has
-- reached. `Step A S` is such a piece of code with a value.
use adversarial_agent_runtim.Prelude.{List, [], ◌∷◌, ◌≡◌, refl, All}
use adversarial_agent_runtim.Errors.{Error, Result, ok, raised}

abbrev pub Outcome {ℓ κ} : Type ℓ → Type κ → Type (ℓ ⊔ κ)
Outcome A S = Result A × S

module _ {ℓ κ μ} {A : Type ℓ} {B : Type κ} {S : Type μ} where
  -- The code that follows gets the value and the state.
  unfoldable pub and_then : Outcome A S → (A → S → Outcome B S) → Outcome B S
  and_then (ok a, s) next = next a s
  and_then (raised e, s) next = (raised e, s)

  -- A property of the state that both parts keep.
  pub and_then-keeps {ν} :
      (P : S → Type ν) (first : Outcome A S) (next : A → S → Outcome B S)
      → P first.1
      → ((a : A) (s : S) → P s → P (next a s).1)
      → P (and_then first next).1
  unfolding and_then
  and_then-keeps P (ok a, s) next h keeps = keeps a s h
  and_then-keeps P (raised e, s) next h keeps = h

module _ {ℓ κ} {A : Type ℓ} {S : Type κ} where
  -- `for x in xs: body(x)`.
  unfoldable pub for_each : (A → S → Outcome (Unit {0}) S) → List A → S → Outcome (Unit {0}) S
  unfolding and_then
  for_each body [] s = (ok tt, s)
  for_each body (x ∷ xs) s = and_then (body x s) (λ _ s'. for_each body xs s')

  -- A property of the state that each round keeps.
  pub for_each-keeps {μ ν} :
      (P : S → Type μ) (Q : A → Type ν) (body : A → S → Outcome (Unit {0}) S) (xs : List A) (s : S)
      → ((a : A) (s : S) → Q a → P s → P (body a s).1)
      → All Q xs
      → P s
      → P (for_each body xs s).1
  unfolding for_each
  for_each-keeps P Q body [] s keeps q h = h
  for_each-keeps P Q body (x ∷ xs) s keeps q h =
      and_then-keeps P (body x s) (λ _ s'. for_each body xs s') (keeps x s q.0 h)
        (λ _ s' h'. for_each-keeps P Q body xs s' keeps q.1 h')

module _ {ℓ κ μ} {A : Type ℓ} {B : Type κ} {S : Type μ} where
  -- The parts of code that returns.
  pub and_then_returns :
      (first : Outcome A S) (next : A → S → Outcome B S) (b : B)
      → (and_then first next).0 ≡ ok b
      → (a : A) × (first.0 ≡ ok a) × ((next a first.1).0 ≡ ok b)
  unfolding and_then
  and_then_returns (ok a, s) next b h = (a, refl, h)
  and_then_returns (raised e, s) next b h = cc

  -- Code after which another property holds, wherever it ends.
  pub and_then-leads {ν π} :
      (P : S → Type ν) (Q : S → Type π) (first : Outcome A S) (next : A → S → Outcome B S)
      → P first.1
      → ((s : S) → P s → Q s)
      → ((a : A) (s : S) → P s → Q (next a s).1)
      → Q (and_then first next).1
  unfolding and_then
  and_then-leads P Q (ok a, s) next h weaker leads = leads a s h
  and_then-leads P Q (raised e, s) next h weaker leads = weaker s h

  -- A property of outcomes that every raised error has.
  pub and_then-ends {ν} :
      (Q : Outcome B S → Type ν) (first : Outcome A S) (next : A → S → Outcome B S)
      → ((e : Error) (s : S) → Q (raised e, s))
      → ((a : A) (s : S) → Q (next a s))
      → Q (and_then first next)
  unfolding and_then
  and_then-ends Q (ok a, s) next fails goes = goes a s
  and_then-ends Q (raised e, s) next fails goes = fails e s
