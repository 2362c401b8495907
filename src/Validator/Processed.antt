-- ===== src/Validator/Processed.antt =====
-- A recorded reply that is processed again, agent/validate.py.
use Prim.Native.String.{◌++◌}
use adversarial_agent_runtim.Prelude.{
  ℕ, suc, String, ◌≡◌, refl, ap, sym, ◌∙◌, false, some, List, [], ◌∷◌, ◌==◌, inl, inr, Bool-cases,
  is_some,
}
use adversarial_agent_runtim.Json.{Fields}
use adversarial_agent_runtim.Errors.{Result, ok, Result-cases}
use adversarial_agent_runtim.Codec.{JsonLoads, Codec}
use adversarial_agent_runtim.Text.{decimal}
use adversarial_agent_runtim.Database.Schema.{Database}
use adversarial_agent_runtim.Database.EventLog.{append_event, skip_id, with_ids}
use adversarial_agent_runtim.Durability.Append.{append_event_recorded}
use adversarial_agent_runtim.Memory.Manager.{MemoryManager}
use adversarial_agent_runtim.Response.Reply.{ParsedAgentResponse, parse_agent_response}
use adversarial_agent_runtim.Runtime.Keys.{event_key}
use adversarial_agent_runtim.Runtime.Recorded.{Recorded, append_event-Recorded, append_event-keeps}
use adversarial_agent_runtim.Validator.{
  ValidatedAgentResponse, validated, Session, with_db, message_payload, error_payload,
  log_parse_errors, log_assistant_text, record_parsed, record_parsed_response,
}

module _ (codec : Codec) (run_id : String) (step : ℕ) where
  abbrev error_key : ℕ → String → String
  error_key index error =
      event_key codec run_id ("tool_parse_error:" ++ decimal index) step (error_payload error)

  abbrev text_key : String → String
  text_key text = event_key codec run_id "assistant_message" step (message_payload text)

  -- Every parse error from this index on has its event.
  abbrev ErrorsLogged : ℕ → List String → Database → Type 0
  ErrorsLogged index [] db = Unit
  ErrorsLogged index (error ∷ errors) db =
      Recorded (error_key index error) db × ErrorsLogged (suc index) errors db

  ErrorsLogged-with_ids :
      (n index : ℕ) (errors : List String) (db : Database)
      → ErrorsLogged index errors db
      → ErrorsLogged index errors (with_ids n db)
  ErrorsLogged-with_ids n index [] db h = tt
  ErrorsLogged-with_ids n index (error ∷ errors) db (h, rest) =
      (h, ErrorsLogged-with_ids n (suc index) errors db rest)

  module _ (loads : JsonLoads) where
    log_parse_errors-keeps :
        (k : String) (index : ℕ) (errors : List String) (db : Database)
        → Recorded k db
        → Recorded k (log_parse_errors codec loads run_id step index errors db)
    unfolding log_parse_errors
    log_parse_errors-keeps k index [] db h = h
    log_parse_errors-keeps k index (error ∷ errors) db h =
        log_parse_errors-keeps k (suc index) errors _ (
          append_event-keeps k run_id "tool_parse_error" (error_payload error) (some step)
            (some (error_key index error)) db h)

    log_parse_errors-ErrorsLogged :
        (index : ℕ) (errors : List String) (db : Database)
        → ErrorsLogged index errors (log_parse_errors codec loads run_id step index errors db)
    unfolding log_parse_errors
    log_parse_errors-ErrorsLogged index [] db = tt
    log_parse_errors-ErrorsLogged index (error ∷ errors) db = (
      log_parse_errors-keeps (error_key index error) (suc index) errors _ (
          append_event-Recorded run_id "tool_parse_error" (error_key index error)
            (error_payload error) (some step) db),
      log_parse_errors-ErrorsLogged (suc index) errors _,
    )

    log_parse_errors-logged :
        (index : ℕ) (errors : List String) (db : Database)
        → ErrorsLogged index errors db
        → (n : ℕ) × (log_parse_errors codec loads run_id step index errors db ≡ with_ids n db)
    unfolding log_parse_errors
    log_parse_errors-logged index [] db h = (db.last_event_id, refl)
    log_parse_errors-logged index (error ∷ errors) db h =
        let ignored =
          append_event_recorded run_id "tool_parse_error" (error_key index error)
            (error_payload error) (some step) db h.0 in
        let (n, same) =
          log_parse_errors-logged (suc index) errors (skip_id db)
            (ErrorsLogged-with_ids (suc db.last_event_id) (suc index) errors db h.1) in
        (n, rw (ignored, log_parse_errors) same)

    -- The text is empty, or its event is recorded.
    abbrev TextLogged : String → Database → Type 0
    TextLogged text db = (text == "") ≡ false → Recorded (text_key text) db

    log_assistant_text-TextLogged :
        (text : String) (s : Session)
        → TextLogged text (log_assistant_text codec loads run_id step text s).1.db
    unfolding log_assistant_text
    log_assistant_text-TextLogged text s nonempty =
        let inserted =
          (append_event run_id "assistant_message" (message_payload text) (some step)
            (some (text_key text)) s.db).0 in
        let logged =
          append_event-Recorded run_id "assistant_message" (text_key text) (message_payload text)
            (some step) s.db in
        elim (Bool-cases (is_some inserted)) [
          | inl new ↦ rw (nonempty, log_assistant_text, new) logged
          | inr old ↦ rw (nonempty, log_assistant_text, old) logged
        ]

    -- The store of a session, with another state of the sequence of ids.
    abbrev pub renumbered : ℕ → Session → Session
    renumbered n s = record s { db = with_ids n s.db }

    log_assistant_text-logged :
        (text : String) (s : Session)
        → TextLogged text s.db
        → (n : ℕ) × (log_assistant_text codec loads run_id step text s ≡ (ok tt, renumbered n s))
    unfolding log_assistant_text
    log_assistant_text-logged text s h = elim (Bool-cases (text == "")) [
      | inl empty ↦ (s.db.last_event_id, rw (empty, log_assistant_text))
      | inr nonempty ↦ (
        suc s.db.last_event_id,
        rw (
          nonempty,
          log_assistant_text,
          append_event_recorded run_id "assistant_message" (text_key text) (message_payload text)
              (some step) s.db (h nonempty),
        ),
      )
    ]

    -- The text and the errors of the reply have their events.
    abbrev AllLogged : ParsedAgentResponse → Database → Type 0
    AllLogged parsed db =
        TextLogged parsed.assistant_text db × ErrorsLogged 0 parsed.parse_errors db

    record_parsed-spoken :
        (response : Fields) (mc tc : ℕ) (parsed : ParsedAgentResponse) (s : Session)
        → let (r, spoken) = log_assistant_text codec loads run_id step parsed.assistant_text s in
          r ≡ ok tt
          → record_parsed codec loads run_id step response mc tc parsed s ≡ (
            ok (validated parsed response mc tc),
            with_db spoken
                (log_parse_errors codec loads run_id step 0 parsed.parse_errors spoken.db),
          )
    unfolding record_parsed
    record_parsed-spoken response mc tc parsed s went = rw (went, record_parsed)

    record_parsed-AllLogged :
        (response : Fields) (mc tc : ℕ) (parsed : ParsedAgentResponse) (s : Session)
        (v : ValidatedAgentResponse)
        → (record_parsed codec loads run_id step response mc tc parsed s).0 ≡ ok v
        → (Path (Result ValidatedAgentResponse) (ok (validated parsed response mc tc)) (ok v))
          × AllLogged parsed (record_parsed codec loads run_id step response mc tc parsed s).1.db
    unfolding record_parsed
    record_parsed-AllLogged response mc tc parsed s v returned =
        let (r, spoken) = log_assistant_text codec loads run_id step parsed.assistant_text s in
        elim (Result-cases r) [
          | inr (e, failed) ↦ cc
          | inl (_, went) ↦ (
            sym (ap (λ x. x.0) (record_parsed-spoken response mc tc parsed s went)) ∙ returned,
            (
              λ nonempty. rw (record_parsed-spoken response mc tc parsed s went) (
                  log_parse_errors-keeps (text_key parsed.assistant_text) 0 parsed.parse_errors
                    spoken.db (log_assistant_text-TextLogged parsed.assistant_text s nonempty)),
              rw (record_parsed-spoken response mc tc parsed s went)
                  (log_parse_errors-ErrorsLogged 0 parsed.parse_errors spoken.db),
            ),
          )
        ]

    record_parsed-logged :
        (response : Fields) (mc tc : ℕ) (parsed : ParsedAgentResponse) (s : Session)
        → AllLogged parsed s.db
        → (n : ℕ) × (record_parsed codec loads run_id step response mc tc parsed s
            ≡ (ok (validated parsed response mc tc), renumbered n s))
    record_parsed-logged response mc tc parsed s (text, errors) =
        let (m, silent) = log_assistant_text-logged parsed.assistant_text s text in
        let (n, reported) =
          log_parse_errors-logged 0 parsed.parse_errors (with_ids m s.db)
            (ErrorsLogged-with_ids m 0 parsed.parse_errors s.db errors) in
        (
          n,
          record_parsed-spoken response mc tc parsed s (ap (λ x. x.0) silent)
              ∙ ap
                  (λ x. (
                    ok (validated parsed response mc tc),
                    with_db x.1
                        (log_parse_errors codec loads run_id step 0 parsed.parse_errors x.1.db),
                  ))
                  silent
              ∙ ap (λ db. (ok (validated parsed response mc tc), with_db s db)) reported,
        )

    record_parsed_response-read :
        (response : Fields) (mc tc : ℕ) (s : Session) (parsed : ParsedAgentResponse)
        → parse_agent_response codec loads response step ≡ ok parsed
        → record_parsed_response codec loads run_id step response mc tc s
          ≡ record_parsed codec loads run_id step response mc tc parsed s
    unfolding record_parsed_response
    record_parsed_response-read response mc tc s parsed read = rw (read, record_parsed_response)

    -- When a reply was processed and a validated response came of it, then processing the same reply
    -- again, in a process that starts from the store that the first left and any conversation, gives
    -- the same validated response and leaves the conversation and every row of the store as they
    -- are: only the sequence of the event ids may move.
    pub record_parsed_response-again :
        (response : Fields) (mc tc : ℕ) (s : Session) (memory : MemoryManager)
        (v : ValidatedAgentResponse)
        → (record_parsed_response codec loads run_id step response mc tc s).0 ≡ ok v
        → let later : Session = record {
          db = (record_parsed_response codec loads run_id step response mc tc s).1.db;
          memory = memory;
        } in
          (n : ℕ) × (record_parsed_response codec loads run_id step response mc tc later
            ≡ (ok v, renumbered n later))
    unfolding record_parsed_response
    record_parsed_response-again response mc tc s memory v returned =
        elim (Result-cases (parse_agent_response codec loads response step)) [
          | inr (e, failed) ↦ cc
          | inl (parsed, read) ↦
              let first = record_parsed_response-read response mc tc s parsed read in
              let (same, logged) =
                record_parsed-AllLogged response mc tc parsed s v
                  (sym (ap (λ x. x.0) first) ∙ returned) in
              let later : Session = record {
                db = (record_parsed codec loads run_id step response mc tc parsed s).1.db;
                memory = memory;
              } in
              let (n, silent) = record_parsed-logged response mc tc parsed later logged in
              rw first (
                n,
                record_parsed_response-read response mc tc later parsed read
                    ∙ silent
                    ∙ ap (λ x. (x, renumbered n later)) same,
              )
        ]
