-- ===== src/Validator/Tests.antt =====
-- The theorem on a reply that is processed again, at a reply with a text.
use adversarial_agent_runtim.Database.EventLog.{
  with_ids, append_event, insert_event, insert_keyed, key_recorded, insert_event_row,
}
use adversarial_agent_runtim.Text.{
  codes, decimal, is_space, join, lower, occurs, split, starts, text_length, words,
}
use adversarial_agent_runtim.Runtime.Keys.{event_key}
use adversarial_agent_runtim.Response.ToolCalls.{parse_item, parse_items}
use adversarial_agent_runtim.Response.Source.{content_items, raw_items, from_content, in_set}
use adversarial_agent_runtim.Response.Reply.{
  expected_tool_call_count, parse_agent_response, assistant_text, is_partial_turn,
}
use adversarial_agent_runtim.Memory.Window.{compact_if_needed, add}
use adversarial_agent_runtim.Memory.Message.{
  clip_text, has_fact_marker, normalise_whitespace, message_token_count,
}
use adversarial_agent_runtim.Tokenizer.{count_tokens}
use adversarial_agent_runtim.Prelude.{ℕ, ◌≡◌, refl, false, none, [], ◌∷◌}
use adversarial_agent_runtim.Json.{null, list, nil, cons, Fields, fields, str}
use adversarial_agent_runtim.Errors.{ok}
use adversarial_agent_runtim.Codec.{Codec}
use adversarial_agent_runtim.Database.Schema.{empty_database}
use adversarial_agent_runtim.Memory.Manager.{
  MemoryManager, new_manager, fact_priority, preserve_fact, same_fact, add_assistant_message,
}
use adversarial_agent_runtim.Validator.{
  ValidatedAgentResponse, Session, record_parsed_response, log_parse_errors, record_parsed,
  log_assistant_text,
}
use adversarial_agent_runtim.Validator.Processed.{record_parsed_response-again}

abbrev plain_codec : Codec
plain_codec = record {
  stable_json = λ v. "{}";
  sha256 = λ s. s;
  repr = λ v. "value";
  lower = λ s. s;
}

abbrev reply : Fields
reply = fields (("content", str "all done") ∷ ("tool_calls", list (cons null nil)) ∷ [])

abbrev memory : MemoryManager
memory = new_manager (record { token_budget = 100; messages = [] })

abbrev session : Session
session = record { db = empty_database; memory = memory }

abbrev outcome : ValidatedAgentResponse
outcome = record {
  assistant_text = "all done";
  tool_calls = [];
  parse_errors = "tool call 0 is not an object" ∷ [];
  partial_turn = false;
  expected_tool_call_count = none;
  raw_response = reply;
  message_count = 3;
  token_count = 20;
}

processed :
    (record_parsed_response plain_codec (λ s. ok none) "r" 1 reply 3 20 session).0 ≡ ok outcome
unfolding record_parsed_response count_tokens fact_priority preserve_fact same_fact clip_text
    has_fact_marker normalise_whitespace compact_if_needed expected_tool_call_count content_items
    parse_item parse_items event_key codes decimal is_space join lower occurs split starts
    text_length words log_parse_errors parse_agent_response raw_items from_content assistant_text
    is_partial_turn in_set record_parsed log_assistant_text append_event insert_event insert_keyed
    key_recorded insert_event_row add_assistant_message add message_token_count
processed = refl

record_parsed_response-again_example :
    let later : Session = record {
      db = (record_parsed_response plain_codec (λ s. ok none) "r" 1 reply 3 20 session).1.db;
      memory = memory;
    } in
    (n : ℕ) × (record_parsed_response plain_codec (λ s. ok none) "r" 1 reply 3 20 later
      ≡ (ok outcome, record later { db = with_ids n later.db }))
record_parsed_response-again_example =
    record_parsed_response-again plain_codec "r" 1 (λ s. ok none) reply 3 20 session memory outcome
      processed
