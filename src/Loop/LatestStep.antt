-- ===== src/Loop/LatestStep.antt =====
-- The latest step with a tool result, `_latest_failed_tool_results` of agent/runtime.py.
use adversarial_agent_runtim.Prelude.{
  ℕ, ◌≡◌, ◌<◌, ◌≤◌, true, false, Option, none, some, List, [], ◌∷◌, any, arith, leb, Bool,
  Bool-cases, Option-cases, inl, inr,
}
use adversarial_agent_runtim.Database.Schema.{Event}
use adversarial_agent_runtim.Loop.Contradiction.{latest_tool_step, is_step_of}

-- Some tool result has this step.
abbrev pub HasResultAt : ℕ → List Event → Type 0
HasResultAt n events = any (is_step_of "tool_result" n) events ≡ true

pub latest_sound :
    (current m : ℕ) (events : List Event)
    → latest_tool_step current events ≡ some m
    → (m < current) × HasResultAt m events
unfolding latest_tool_step
latest_sound current m [] found = cc
latest_sound current m (event ∷ events) found = ground (arith, found, latest_sound current m events)

abbrev is_at_least : ℕ → Option ℕ → Bool
is_at_least n none = false
is_at_least n (some m) = leb n m

latest-is_at_least :
    (current n : ℕ) (events : List Event)
    → n < current
    → HasResultAt n events
    → is_at_least n (latest_tool_step current events) ≡ true
unfolding latest_tool_step
latest-is_at_least current n [] small there = cc
latest-is_at_least current n (event ∷ events) small there =
    elim (Bool-cases (any (is_step_of "tool_result" n) events)) [
      | inl later ↦ ground (arith, small, latest-is_at_least current n events small later)
      | inr not_later ↦ ground (arith, small, there, not_later)
    ]

pub latest_max :
    (current n : ℕ) (events : List Event)
    → n < current
    → HasResultAt n events
    → (m : ℕ) × (latest_tool_step current events ≡ some m) × (n ≤ m)
latest_max current n events small there =
    let least = latest-is_at_least current n events small there in
    elim (Option-cases (latest_tool_step current events)) [
      | inl nothing ↦ let wrong : false ≡ true = rw nothing at least in cc
      | inr (m, found) ↦ (m, found, ground (arith, found, least))
    ]
