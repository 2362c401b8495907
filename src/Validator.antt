-- ===== src/Validator.antt =====
-- agent/validate.py, `AgentValidator`: one turn of the model, and the processing of its recorded
-- reply. The caller of the model is an interface; `loads` is `json.loads`. The tracer writes to a
-- file of its own and is left out.
mod Tests
pub mod Processed
use Prim.Native.String.{◌++◌}
use adversarial_agent_runtim.Prelude.{
  ℕ, suc, String, Bool, Option, none, some, List, [], ◌∷◌, ◌==◌, if◌then◌else◌, length, is_some,
  map,
}
use adversarial_agent_runtim.Json.{Json, str, num, list, dict, Fields, fields, object, items}
use adversarial_agent_runtim.Errors.{Result, ok, raised}
use adversarial_agent_runtim.Codec.{JsonLoads, Codec}
use adversarial_agent_runtim.Text.{decimal}
use adversarial_agent_runtim.Database.Schema.{Database}
use adversarial_agent_runtim.Database.EventLog.{append_event}
use adversarial_agent_runtim.Memory.Message.{MemoryMessage, message_token_count}
use adversarial_agent_runtim.Memory.Manager.{MemoryManager, add_assistant_message}
use adversarial_agent_runtim.Memory.Context.{get_compacted_context}
use adversarial_agent_runtim.Client.{LlmClient, Surroundings, call}
use adversarial_agent_runtim.Response.ToolCalls.{ToolCall}
use adversarial_agent_runtim.Response.Reply.{ParsedAgentResponse, parse_agent_response}
use adversarial_agent_runtim.Runtime.Keys.{event_key}

-- `LLMCaller`: a call over the state `C` of the client.
pub record LlmCaller (C : Type 0) : Type 0 where
  pub call_model : Fields → C → Result Fields × C

-- `LLMClient` as such a caller, where the payload tells what the call meets.
abbrev pub llm_caller : (Fields → Surroundings) → LlmCaller LlmClient
llm_caller world = record { call_model = λ payload client. call (world payload) client }

pub record ValidatedAgentResponse : Type 0 where
  pub assistant_text : String
  pub tool_calls : List ToolCall
  pub parse_errors : List String
  pub partial_turn : Bool
  pub expected_tool_call_count : Option ℕ
  pub raw_response : Fields
  pub message_count : ℕ
  pub token_count : ℕ

abbrev pub validated : ParsedAgentResponse → Fields → ℕ → ℕ → ValidatedAgentResponse
validated parsed response message_count token_count = record {
  assistant_text = parsed.assistant_text;
  tool_calls = parsed.tool_calls;
  parse_errors = parsed.parse_errors;
  partial_turn = parsed.partial_turn;
  expected_tool_call_count = parsed.expected_tool_call_count;
  raw_response = response;
  message_count = message_count;
  token_count = token_count;
}

-- What a turn changes: the store and the conversation.
pub record Session : Type 0 where
  pub db : Database
  pub memory : MemoryManager

abbrev pub with_db : Session → Database → Session
with_db s db = record s { db = db }

abbrev pub message_payload : String → Json
message_payload text = object (("content", str text) ∷ [])

abbrev pub error_payload : String → Json
error_payload error = object (("error", str error) ∷ [])

abbrev pub request_payload : ℕ → ℕ → Json
request_payload message_count tokens =
    object (("message_count", num message_count) ∷ ("tokens", num tokens) ∷ [])

-- `{"messages": context, "task": task, "step": step}`.
abbrev pub call_payload : List MemoryMessage → String → ℕ → Fields
call_payload context task step = fields (
    (
      "messages",
      list (
          items (
            map
              (λ (m : MemoryMessage).
                object (("role", str m.role) ∷ ("content", str m.content) ∷ []))
              context)),
    )
    ∷ ("task", str task)
    ∷ ("step", num step)
    ∷ [])

module _ (codec : Codec) (loads : JsonLoads) where
  -- The loop over the parse errors, from this index on.
  unfoldable pub log_parse_errors : String → ℕ → ℕ → List String → Database → Database
  log_parse_errors run_id step index [] db = db
  log_parse_errors run_id step index (error ∷ errors) db =
      let key =
        event_key codec run_id ("tool_parse_error:" ++ decimal index) step (error_payload error) in
      let (inserted, logged) =
        append_event run_id "tool_parse_error" (error_payload error) (some step) (some key) db in
      log_parse_errors run_id step (suc index) errors logged

  -- The assistant's text: it is remembered only when its event is new.
  unfoldable pub log_assistant_text : String → ℕ → String → Session → Result (Unit {0}) × Session
  log_assistant_text run_id step text s =
      let payload = message_payload text in
      let key = event_key codec run_id "assistant_message" step payload in
      let (inserted, logged) =
        append_event run_id "assistant_message" payload (some step) (some key) s.db in
      let (r, remembered) = add_assistant_message text s.memory in
      if text == ""
      then (ok tt, s)
      else if is_some inserted
      then (r, record { db = logged; memory = remembered })
      else (ok tt, with_db s logged)

  -- What `_record_parsed_response` does with a reply that was parsed.
  unfoldable pub record_parsed :
      String
      → ℕ
      → Fields
      → ℕ
      → ℕ
      → ParsedAgentResponse
      → Session
      → Result ValidatedAgentResponse × Session
  record_parsed run_id step response message_count token_count parsed s =
      let (r, spoken) = log_assistant_text run_id step parsed.assistant_text s in
      elim r [
        | raised e ↦ (raised e, spoken)
        | ok _ ↦ (
          ok (validated parsed response message_count token_count),
          with_db spoken (log_parse_errors run_id step 0 parsed.parse_errors spoken.db),
        )
      ]

  -- `_record_parsed_response`, also the body of `validate_recorded_response`.
  unfoldable pub record_parsed_response :
      String → ℕ → Fields → ℕ → ℕ → Session → Result ValidatedAgentResponse × Session
  record_parsed_response run_id step response message_count token_count s =
      elim (parse_agent_response codec loads response step) [
        | raised e ↦ (raised e, s)
        | ok parsed ↦ record_parsed run_id step response message_count token_count parsed s
      ]

  abbrev pub request_key : String → ℕ → String
  request_key run_id step = run_id ++ ":llm_request:" ++ decimal step

  abbrev pub response_key : String → ℕ → String
  response_key run_id step = run_id ++ ":llm_response:" ++ decimal step

  module _ {C : Type 0} (caller : LlmCaller C) where
    -- `validate_turn` from the call of the model on.
    unfoldable pub ask_model :
        String
        → String
        → ℕ
        → List MemoryMessage
        → ℕ
        → Session
        → C
        → Result ValidatedAgentResponse × Session × C
    ask_model run_id task step context token_count s client =
        let (reply, client') = caller.call_model (call_payload context task step) client in
        elim reply [
          | raised e ↦ (raised e, s, client')
          | ok response ↦
              let (inserted, logged) =
                append_event run_id "llm_response" (dict response) (some step)
                  (some (response_key run_id step)) s.db in
              let (r, s') =
                record_parsed_response run_id step response (length context) token_count
                  (with_db s logged) in
              (r, s', client')
        ]

    -- `validate_turn`.
    unfoldable pub validate_turn :
        String → String → ℕ → Session → C → Result ValidatedAgentResponse × Session × C
    validate_turn run_id task step s client =
        let (found, compacted) = get_compacted_context s.memory in
        elim found [
          | raised e ↦ (raised e, record s { memory = compacted }, client)
          | ok context ↦
              let token_count = message_token_count compacted.window.messages in
              let (inserted, logged) =
                append_event run_id "llm_request" (request_payload (length context) token_count)
                  (some step) (some (request_key run_id step)) s.db in
              ask_model run_id task step context token_count
                (record { db = logged; memory = compacted }) client
        ]
