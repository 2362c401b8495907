-- ===== src/Memory/Bounded.antt =====
-- The rounds of `get_compacted_context` of agent/message.py.
use mathlib.Core.Path.{subst}
use adversarial_agent_runtim.Prelude.{
  ℕ, zero, suc, ◌≤◌, ◌<◌, ◌≡◌, refl, ◌∙◌, ◌⊎◌, inl, true, false, Bool, Option, List, [], ◌∷◌, arith,
  eq_refl, length, any,
}
use adversarial_agent_runtim.Errors.{Result, ok, raised, context_limit_exceeded_error}
use adversarial_agent_runtim.Memory.Message.{
  MemoryMessage, DurableFact, message_token_count, is_safety_preamble,
}
use adversarial_agent_runtim.Memory.Window.{MemoryWindow, with_messages, compact_if_needed}
use adversarial_agent_runtim.Memory.Manager.{
  MemoryManager, same_fact, ensure_safety_preamble, sync_durable_facts, lowest_priority,
  remove_first, trim_fact_entries, facts_eq,
}
use adversarial_agent_runtim.Memory.Context.{
  checked_context, finish_round, context_rounds, selected_facts, get_compacted_context,
}
use adversarial_agent_runtim.Memory.FirstUser.{first_user, first_user-compact_if_needed}
use adversarial_agent_runtim.Memory.Keeps.{
  any-ensure, any-sync, any-compact, user-sync, user-ensure,
}
use adversarial_agent_runtim.Memory.Fits.{
  FitsOrRaises, compact-FitsOrRaises, budget-compact_if_needed,
}

facts_eq_refl : (facts : List DurableFact) → facts_eq facts facts ≡ true
unfolding facts_eq same_fact
facts_eq_refl [] = refl
facts_eq_refl (f ∷ facts) = ground (arith, facts_eq_refl facts, eq_refl f.role, eq_refl f.content)

remove_first_cases :
    (p : ℕ) (facts : List DurableFact)
    → (remove_first p facts ≡ facts) ⊎ (suc (length (remove_first p facts)) ≡ length facts)
unfolding remove_first
remove_first_cases p [] = inl refl
remove_first_cases p (f ∷ facts) = ground (arith, remove_first_cases p facts)

-- A round that does not raise goes on with a fact less.
trim_shorter :
    (facts : List DurableFact)
    → facts_eq (trim_fact_entries facts) facts ≡ false
    → length (trim_fact_entries facts) < length facts
unfolding trim_fact_entries
trim_shorter [] h = absurd (ground (arith, facts_eq_refl []))
trim_shorter (f ∷ facts) h = ground (
  arith,
  remove_first_cases (lowest_priority f.priority facts) (f ∷ facts),
  facts_eq_refl (f ∷ facts),
)

-- What every round keeps: the messages hold the preamble, and `user` is the first user message.
abbrev Kept : Option MemoryMessage → List MemoryMessage → Type 0
Kept user ms = (any is_safety_preamble ms ≡ true) × (first_user ms ≡ user)

-- The outcome: the messages of the window, within the budget and with all that is kept, or the
-- limit error.
abbrev pub Ends : Option MemoryMessage → ℕ → Result (List MemoryMessage) × MemoryWindow → Type 0
Ends user b (ok ms, w) =
    (ms ≡ w.messages)
    × (message_token_count ms ≤ b)
    × (any is_safety_preamble ms ≡ true)
    × (first_user ms ≡ user)
Ends user b (raised e, w) = e.class ≡ context_limit_exceeded_error

lt_of_lt : {a b n : ℕ} → a < b → b < suc n → a < n
lt_of_lt p q = omega arith

abbrev round : List DurableFact → MemoryWindow → Result (Unit {0}) × MemoryWindow
round facts w = compact_if_needed (with_messages w (sync_durable_facts facts w.messages))

round-Kept :
    (user : Option MemoryMessage) (facts : List DurableFact) (w : MemoryWindow)
    → Kept user w.messages
    → Kept user (round facts w).1.messages
round-Kept user facts w (p, u) = (
  any-compact _ ∙ any-sync facts w.messages ∙ p,
  first_user-compact_if_needed _ ∙ user-sync facts w.messages ∙ u,
)

checked-Ends :
    (user : Option MemoryMessage) (r : Result (Unit {0})) (w : MemoryWindow)
    → FitsOrRaises (r, w)
    → Kept user w.messages
    → Ends user w.token_budget (checked_context r w, w)
unfolding checked_context
checked-Ends user (raised e) w f k = f
checked-Ends user (ok t) w f k = ground arith

finish_round-Ends :
    (user : Option MemoryMessage) (b : ℕ) (r : Result (List MemoryMessage)) (unchanged : Bool)
    (w : MemoryWindow) (rest : Result (List MemoryMessage) × MemoryWindow)
    → Ends user b (r, w)
    → (unchanged ≡ false → Ends user b rest)
    → Ends user b (finish_round r unchanged w rest)
unfolding finish_round
finish_round-Ends user b (ok ms) unchanged w rest e h = e
finish_round-Ends user b (raised x) true w rest e h = e
finish_round-Ends user b (raised x) false w rest e h = h refl

context_rounds-Ends :
    (user : Option MemoryMessage) (b n : ℕ) (facts : List DurableFact) (w : MemoryWindow)
    → w.token_budget ≡ b
    → length facts < n
    → Kept user w.messages
    → Ends user b (context_rounds n facts w)
unfolding context_rounds
context_rounds-Ends user b zero facts w same short k = elim short [ ]
context_rounds-Ends user b (suc n) facts w same short k =
    let (r, w') = round facts w in
    let kept = round-Kept user facts w k in
    let budget : w'.token_budget ≡ b = budget-compact_if_needed _ ∙ same in
    finish_round-Ends user b (checked_context r w') (facts_eq (trim_fact_entries facts) facts) w'
      (context_rounds n (trim_fact_entries facts) w')
      (subst (λ limit. Ends user limit (checked_context r w', w')) budget
        (checked-Ends user r w' (compact-FitsOrRaises _) kept))
      (λ changed.
        context_rounds-Ends user b n (trim_fact_entries facts) w' budget
          (lt_of_lt (trim_shorter facts changed) short) kept)

-- `get_compacted_context` ends. It returns the messages that the window now holds: they fit the
-- token budget, hold the safety preamble, and their first user message is the one that the window
-- had before. Or it raises a ContextLimitExceededError.
pub get_compacted_context-Ends :
    (m : MemoryManager)
    → let (r, m') = get_compacted_context m in
      Ends (first_user m.window.messages) m.window.token_budget (r, m'.window)
unfolding get_compacted_context
get_compacted_context-Ends m =
    context_rounds-Ends (first_user m.window.messages) m.window.token_budget
      (suc (length (selected_facts m))) (selected_facts m)
      (with_messages m.window (ensure_safety_preamble m.window.messages)) refl (omega arith)
      (any-ensure m.window.messages, user-ensure m.window.messages)
