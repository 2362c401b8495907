-- ===== src/Memory/Fits.antt =====
-- The token budget of `MemoryWindow`, agent/message.py.
use mathlib.Core.List.{◌++◌ as append}
use adversarial_agent_runtim.Prelude.{
  ◌≤◌, String, ◌≡◌, refl, inl, inr, [], ◌∷◌, arith, leb, Bool-cases,
}
use adversarial_agent_runtim.Errors.{Result, ok, raised, context_limit_exceeded_error}
use adversarial_agent_runtim.Memory.Message.{message_token_count}
use adversarial_agent_runtim.Memory.Window.{MemoryWindow, with_messages, compact_if_needed, add}

-- The outcome of a method on a window: it fits, or the method raised the limit error.
abbrev pub FitsOrRaises : Result (Unit {0}) × MemoryWindow → Type 0
FitsOrRaises (ok _, w) = message_token_count w.messages ≤ w.token_budget
FitsOrRaises (raised e, w) = e.class ≡ context_limit_exceeded_error

pub compact-FitsOrRaises : (w : MemoryWindow) → FitsOrRaises (compact_if_needed w)
unfolding compact_if_needed
compact-FitsOrRaises w = ground arith

pub budget-compact_if_needed :
    (w : MemoryWindow) → (compact_if_needed w).1.token_budget ≡ w.token_budget
unfolding compact_if_needed
budget-compact_if_needed w = ground arith

-- `add` leaves a window that fits its budget, or raises the limit error; a message that alone
-- exceeds the budget is refused and leaves the window as it was.
pub add-FitsOrRaises :
    (role content : String) (w : MemoryWindow)
    → FitsOrRaises (add role content w)
      × ((add role content w).1.token_budget ≡ w.token_budget)
      × (¬ (message_token_count (record { role = role; content = content } ∷ []) ≤ w.token_budget)
          → (add role content w).1 ≡ w)
unfolding add
add-FitsOrRaises role content w =
    let added =
      with_messages w (append w.messages (record { role = role; content = content } ∷ [])) in
    elim (Bool-cases
      (leb (message_token_count (record { role = role; content = content } ∷ [])) w.token_budget)) [
        | inl fits ↦ rw fits (
          compact-FitsOrRaises added,
          budget-compact_if_needed added,
          λ large. absurd (large (ground arith)),
        )
        | inr large ↦ rw large (refl, refl, λ _. refl)
      ]
