-- ===== src/Memory/Context.antt =====
-- agent/message.py, `MemoryManager.get_compacted_context` and `from_events`.
use Prim.Native.String.{◌++◌}
use adversarial_agent_runtim.Prelude.{
  ℕ, zero, suc, Bool, true, false, not, ◌&&◌, ◌||◌, ◌==◌, List, [], ◌∷◌, leb, if◌then◌else◌, length,
  take, or_else,
}
use adversarial_agent_runtim.Json.{Json, dict, get}
use adversarial_agent_runtim.Codec.{Codec, text_or}
use adversarial_agent_runtim.Errors.{
  Error, Result, ok, raise, raised, builtin, context_limit_exceeded_error,
}
use adversarial_agent_runtim.Text.{decimal}
use adversarial_agent_runtim.Database.Schema.{Event}
use adversarial_agent_runtim.Memory.Message.{
  MemoryMessage, DurableFact, durable_fact_limit, message_token_count,
}
use adversarial_agent_runtim.Memory.Window.{
  MemoryWindow, new_window, with_messages, compact_if_needed,
}
use adversarial_agent_runtim.Memory.Manager.{
  MemoryManager, new_manager, add_user_message, add_assistant_message, add_tool_result,
  ensure_safety_preamble, fact_ledger_token_budget, bounded_from, sync_durable_facts,
  trim_fact_entries, facts_eq,
}

abbrev over_limit : ℕ → ℕ → Error
over_limit token_count token_budget = record {
  class = context_limit_exceeded_error;
  message = "context has " ++ decimal token_count ++ " tokens, limit is " ++ decimal token_budget;
}

-- The end of a round: what compaction raised, or the check of its result.
unfoldable pub checked_context : Result (Unit {0}) → MemoryWindow → Result (List MemoryMessage)
checked_context (raised e) w = raised e
checked_context (ok _) w =
    if leb (message_token_count w.messages) w.token_budget
    then ok w.messages
    else raised (over_limit (message_token_count w.messages) w.token_budget)

-- `return messages`, or in the handler `raise last_error` where trimming changes nothing, and else
-- the next round.
unfoldable pub finish_round :
    Result (List MemoryMessage)
    → Bool
    → MemoryWindow
    → Result (List MemoryMessage) × MemoryWindow
    → Result (List MemoryMessage) × MemoryWindow
finish_round (ok messages) unchanged w rest = (ok messages, w)
finish_round (raised e) unchanged w rest = if unchanged then (raised e, w) else rest

-- The rounds of `while True`. Each round that fails drops a fact, so one more than the facts are
-- enough; `OutOfFuel` is no error of the program.
unfoldable pub context_rounds :
    ℕ → List DurableFact → MemoryWindow → Result (List MemoryMessage) × MemoryWindow
unfolding finish_round
context_rounds zero facts w = (raise (builtin "OutOfFuel") "", w)
context_rounds (suc n) facts w =
    let (r, w') = compact_if_needed (with_messages w (sync_durable_facts facts w.messages)) in
    let rest = context_rounds n (trim_fact_entries facts) w' in
    finish_round (checked_context r w') (facts_eq (trim_fact_entries facts) facts) w' rest

unfoldable pub selected_facts : MemoryManager → List DurableFact
selected_facts m =
    bounded_from (fact_ledger_token_budget m.window.token_budget) []
      (take durable_fact_limit m.durable_facts)

unfoldable pub get_compacted_context : MemoryManager → Result (List MemoryMessage) × MemoryManager
get_compacted_context m =
    let facts = selected_facts m in
    let (r, window) =
      context_rounds (suc (length facts)) facts
        (with_messages m.window (ensure_safety_preamble m.window.messages)) in
    (r, record m { window = window })

-- What one recorded event adds to the conversation, if its payload is a dict.
unfoldable pub remember_fields : Codec → Event → MemoryManager → Result (Unit {0}) × MemoryManager
remember_fields codec event m =
    if event.event_type == "run_started"
    then add_user_message (text_or codec (get "task" event.payload) "") m
    else if event.event_type == "user_message"
    then add_user_message (text_or codec (get "content" event.payload) "") m
    else if event.event_type == "assistant_message"
    then add_assistant_message (text_or codec (get "content" event.payload) "") m
    else if event.event_type == "tool_result"
    then add_tool_result codec.stable_json (text_or codec (get "tool_name" event.payload) "tool")
        (or_else (get "result" event.payload) event.payload) m
    else (ok tt, m)

abbrev pub is_dict : Json → Bool
is_dict (dict d) = true
is_dict other = false

-- The events whose payload is read; a payload that is no dict has no `get`.
abbrev pub is_read : Event → Bool
is_read event =
    event.event_type == "run_started"
    || event.event_type == "user_message"
    || event.event_type == "assistant_message"
    || event.event_type == "tool_result"

-- One event of the loop of `from_events`.
unfoldable pub remember_event : Codec → Event → MemoryManager → Result (Unit {0}) × MemoryManager
remember_event codec event m =
    if is_read event && not (is_dict event.payload)
    then (raise (builtin "AttributeError") "object has no attribute 'get'", m)
    else remember_fields codec event m

unfoldable pub remember_events : Codec → List Event → MemoryManager → Result MemoryManager
remember_events codec [] m = ok m
remember_events codec (event ∷ events) m =
    let (r, m') = remember_event codec event m in
    elim r [ ok _ ↦ remember_events codec events m' | raised e ↦ raised e ]

-- `from_events`.
unfoldable pub from_events : Codec → List Event → ℕ → Result MemoryManager
from_events codec events token_budget = elim (new_window token_budget) [
  | ok window ↦ remember_events codec events (new_manager window)
  | raised e ↦ raised e
]
