-- ===== src/Memory/Manager.antt =====
-- agent/message.py, `MemoryManager`. A method that raises leaves the manager that it has reached.
use Prim.Native.String.{◌++◌}
use mathlib.Core.List.{◌++◌ as append}
use adversarial_agent_runtim.Prelude.{
  ℕ, suc, ◌/◌, String, Bool, true, false, not, ◌&&◌, ◌||◌, List, [], ◌∷◌, ◌==◌, leb, eqb, min, max,
  if◌then◌else◌, keep, map, any,
}
use adversarial_agent_runtim.Json.{Json}
use adversarial_agent_runtim.Errors.{Result}
use adversarial_agent_runtim.Text.{join}
use adversarial_agent_runtim.Memory.Message.{
  MemoryMessage, DurableFact, safety_preamble, durable_facts_prefix, durable_fact_char_limit,
  render, render_untrusted_tool_result, clip_text, message_token_count, is_durable_facts_message,
  is_safety_preamble, has_fact_marker,
}
use adversarial_agent_runtim.Memory.Window.{MemoryWindow, add}

pub record MemoryManager : Type 0 where
  pub window : MemoryWindow
  pub preserved_facts : List String
  pub durable_facts : List DurableFact
  pub user_turn_count : ℕ
  pub assistant_turn_count : ℕ
  pub has_tool_result_data : Bool

abbrev pub new_manager : MemoryWindow → MemoryManager
new_manager window = record {
  window = window;
  preserved_facts = [];
  durable_facts = [];
  user_turn_count = 0;
  assistant_turn_count = 0;
  has_tool_result_data = false;
}

unfoldable pub same_fact : DurableFact → DurableFact → Bool
same_fact a b = a.role == b.role && eqb a.turn_index b.turn_index && a.content == b.content

unfoldable pub fact_priority : Bool → Bool → Bool → ℕ
fact_priority early_user marked_fact is_user =
    let priority = if early_user then 100 else if is_user then 80 else 40 in
    if marked_fact && is_user then max priority 90 else priority

abbrev add_fact : DurableFact → MemoryManager → MemoryManager
add_fact fact m = record m {
  durable_facts = append m.durable_facts (fact ∷ []);
  preserved_facts =
      if any (λ old. old == fact.content) m.preserved_facts
      then m.preserved_facts
      else append m.preserved_facts (fact.content ∷ []);
}

-- `_preserve_fact`.
unfoldable pub preserve_fact : String → ℕ → String → MemoryManager → MemoryManager
preserve_fact role turn_index content m =
    let clipped = clip_text content durable_fact_char_limit in
    let is_user = role == "user" in
    let early_user = is_user && leb turn_index 5 in
    let marked_fact = has_fact_marker clipped in
    let fact : DurableFact = record {
      role = role;
      turn_index = turn_index;
      content = clipped;
      priority = fact_priority early_user marked_fact is_user;
    } in
    if clipped == ""
      || not (early_user || marked_fact)
      || any (λ existing. same_fact existing fact) m.durable_facts
    then m
    else add_fact fact m

abbrev add_to_window : String → String → MemoryManager → Result (Unit {0}) × MemoryManager
add_to_window role content m =
    let (r, window) = add role content m.window in (r, record m { window = window })

unfoldable pub add_user_message : String → MemoryManager → Result (Unit {0}) × MemoryManager
add_user_message content m =
    let turn = suc m.user_turn_count in
    add_to_window "user" content
      (preserve_fact "user" turn content (record m { user_turn_count = turn }))

unfoldable pub add_assistant_message : String → MemoryManager → Result (Unit {0}) × MemoryManager
add_assistant_message content m =
    let turn = suc m.assistant_turn_count in
    add_to_window "assistant" content
      (preserve_fact "assistant" turn content (record m { assistant_turn_count = turn }))

-- The first argument is `_stable_json`.
unfoldable pub add_tool_result :
    (Json → String) → String → Json → MemoryManager → Result (Unit {0}) × MemoryManager
add_tool_result stable_json tool_name result m =
    add_to_window "tool" (render_untrusted_tool_result stable_json tool_name result)
      (record m { has_tool_result_data = true })

-- `_ensure_safety_preamble`, on the messages.
unfoldable pub ensure_safety_preamble : List MemoryMessage → List MemoryMessage
ensure_safety_preamble messages =
    if any is_safety_preamble messages
    then messages
    else record { role = "system"; content = safety_preamble } ∷ messages

unfoldable pub fact_ledger_message : List DurableFact → MemoryMessage
fact_ledger_message facts = record {
  role = "system";
  content = durable_facts_prefix ++ "\n" ++ join "\n" (map (λ fact. "- " ++ render fact) facts);
}

abbrev pub fact_ledger_token_count : List DurableFact → ℕ
fact_ledger_token_count facts = message_token_count (fact_ledger_message facts ∷ [])

abbrev pub fact_ledger_token_budget : ℕ → ℕ
fact_ledger_token_budget token_budget = min 2400 (max 24 (token_budget / 3))

-- `_bounded_fact_entries`, from the entries selected so far.
unfoldable pub bounded_from : ℕ → List DurableFact → List DurableFact → List DurableFact
bounded_from ledger_budget selected [] = selected
bounded_from ledger_budget selected (fact ∷ facts) =
    let candidate = append selected (fact ∷ []) in
    bounded_from ledger_budget
      (if leb (fact_ledger_token_count candidate) ledger_budget then candidate else selected) facts

-- The ledger goes behind a safety preamble at the front.
unfoldable pub insert_ledger : MemoryMessage → List MemoryMessage → List MemoryMessage
insert_ledger ledger [] = ledger ∷ []
insert_ledger ledger (m ∷ ms) = if is_safety_preamble m then m ∷ ledger ∷ ms else ledger ∷ m ∷ ms

-- `_sync_durable_facts_message`, on the messages.
unfoldable pub sync_durable_facts : List DurableFact → List MemoryMessage → List MemoryMessage
sync_durable_facts [] messages = keep (λ m. not (is_durable_facts_message m)) messages
sync_durable_facts (fact ∷ facts) messages =
    insert_ledger (fact_ledger_message (fact ∷ facts))
      (keep (λ m. not (is_durable_facts_message m)) messages)

unfoldable pub lowest_priority : ℕ → List DurableFact → ℕ
lowest_priority lowest [] = lowest
lowest_priority lowest (fact ∷ facts) = lowest_priority (min lowest fact.priority) facts

unfoldable pub remove_first : ℕ → List DurableFact → List DurableFact
remove_first priority [] = []
remove_first priority (fact ∷ facts) =
    if eqb fact.priority priority then facts else fact ∷ remove_first priority facts

-- `_trim_fact_entries`: without the first fact of the lowest priority.
unfoldable pub trim_fact_entries : List DurableFact → List DurableFact
trim_fact_entries [] = []
trim_fact_entries (fact ∷ facts) = remove_first (lowest_priority fact.priority facts) (fact ∷ facts)

-- `==` on lists of facts: field by field.
unfoldable pub facts_eq : List DurableFact → List DurableFact → Bool
facts_eq [] [] = true
facts_eq (a ∷ as') (b ∷ bs) = same_fact a b && eqb a.priority b.priority && facts_eq as' bs
facts_eq _ _ = false
