-- ===== src/Runtime/Finished.antt =====
-- A tool result in the log of agent/runtime.py, for a process that starts again.
use mathlib.Core.Path.{subst}
use adversarial_agent_runtim.Prelude.{
  ℕ, String, Bool, true, false, ◌≡◌, ◌≢◌, Option, none, some, List, [], ◌∷◌, ◌++◌, arith, any, All,
  keep, Bool-cases, Option-cases, inl, inr, eq_refl, ap, sym, ◌∙◌,
}
use adversarial_agent_runtim.Json.{
  Json, null, bool, int, float, str, list, dict, Fields, get, to_list,
}
use adversarial_agent_runtim.Errors.{Result, ok, bind_returns}
use adversarial_agent_runtim.Codec.{Codec}
use adversarial_agent_runtim.Response.ToolCalls.{ToolCall}
use adversarial_agent_runtim.Database.Schema.{Event, Database}
use adversarial_agent_runtim.Database.EventLog.{key_recorded, append_event, new_event, get_events}
use adversarial_agent_runtim.Batch.Execute.{result_payload}
use adversarial_agent_runtim.Runtime.Keys.{ToolResult, idempotency_key}
use adversarial_agent_runtim.Runtime.Log.{event_payload}
use adversarial_agent_runtim.Runtime.Pending.{
  calls_from, completes, is_pending, pending_among, recover_pending_tool_calls,
}
use adversarial_agent_runtim.Runtime.Appended.{get_events-append_event}

ok_same : (a b : List ToolCall) → Path (Result (List ToolCall)) (ok a) (ok b) → a ≡ b
ok_same a b same = cc

module _ (codec : Codec) (to_dict : Json → Result Fields) where
  any-last :
      (test : Event → Bool) (events : List Event) (event : Event)
      → test event ≡ true
      → any test (events ++ event ∷ []) ≡ true
  any-last test [] event h = ground (arith, h)
  any-last test (e ∷ events) event h = ground (arith, any-last test events event h)

  -- The event of a result completes each call with the key of the result.
  result_completes :
      (run_id k key call_id : String) (r : ToolResult) (step : ℕ)
      → r.idempotency_key ≡ some key
      → completes codec to_dict step key call_id
          (new_event run_id "tool_result" (result_payload r) (some step) (some k))
        ≡ true
  unfolding completes
  result_completes run_id k key call_id r step h = rw h (ground (arith, eq_refl key))

  -- Calls with another key.
  abbrev pub OtherKeys : String → String → List ToolCall → Type 0
  OtherKeys run_id key calls = All (λ call. idempotency_key codec run_id call ≢ key) calls

  kept-OtherKeys :
      (run_id k key : String) (r : ToolResult) (step : ℕ) (events : List Event)
      (calls : List ToolCall)
      → r.idempotency_key ≡ some key
      → OtherKeys run_id key (
          keep
            (is_pending codec to_dict run_id
              (events
                ++ new_event run_id "tool_result" (result_payload r) (some step) (some k) ∷ [])
              step)
            calls)
  unfolding is_pending
  kept-OtherKeys run_id k key r step events [] h = tt
  kept-OtherKeys run_id k key r step events (call ∷ calls) h =
      let log =
        events ++ new_event run_id "tool_result" (result_payload r) (some step) (some k) ∷ [] in
      let rest = kept-OtherKeys run_id k key r step events calls h in
      elim (Bool-cases
        (any (completes codec to_dict step (idempotency_key codec run_id call) call.id) log)) [
          | inl done ↦ rw done rest
          | inr open' ↦ rw open' ((λ same. finished call same open'), rest)
        ]
    where
      finished :
          (call : ToolCall)
          → idempotency_key codec run_id call ≡ key
          → any (completes codec to_dict step (idempotency_key codec run_id call) call.id) (
              events ++ new_event run_id "tool_result" (result_payload r) (some step) (some k) ∷ [])
            ≡ false
          → ⊥
      finished call same open' =
          let done =
            any-last (completes codec to_dict step (idempotency_key codec run_id call) call.id)
              events _
              (result_completes run_id k (idempotency_key codec run_id call) call.id r step
                (h ∙ ap some (sym same))) in
          let wrong : true ≡ false = sym done ∙ open' in cc

  -- Where the result of a call is appended at its step, under an event key that is not recorded yet, a
  -- process that starts again does not recover the call: no call that it recovers at that step has the
  -- idempotency key of the result.
  pub recover-result :
      (run_id k key : String) (r : ToolResult) (step : ℕ) (db : Database) (calls : List ToolCall)
      → r.idempotency_key ≡ some key
      → key_recorded k db.events ≡ false
      → let reported =
          (append_event run_id "tool_result" (result_payload r) (some step) (some k) db).1 in
        recover_pending_tool_calls codec to_dict run_id (get_events run_id reported) step ≡ ok calls
        → OtherKeys run_id key calls
  unfolding recover_pending_tool_calls
  recover-result run_id k key r step db calls h new recovered =
      let log =
        get_events run_id db
        ++ new_event run_id "tool_result" (result_payload r) (some step) (some k) ∷ [] in
      let here : recover_pending_tool_calls codec to_dict run_id log step ≡ ok calls =
        sym (
          ap (λ events. recover_pending_tool_calls codec to_dict run_id events step)
            (get_events-append_event run_id "tool_result" k (result_payload r) (some step) db new))
        ∙ recovered in
      elim (Option-cases (event_payload log "tool_calls_parsed" step)) [
        | inl missing ↦ none_recovered calls (rw (missing, recover_pending_tool_calls) at here)
        | inr (payload, found) ↦
            among (get "tool_calls" payload) calls (rw (found, recover_pending_tool_calls) at here)
      ]
    where
      none_recovered :
          (calls : List ToolCall)
          → Path (Result (List ToolCall)) (ok []) (ok calls)
          → OtherKeys run_id key calls
      none_recovered [] same = tt
      none_recovered (call ∷ calls) same = cc

      among :
          (o : Option Json) (calls : List ToolCall)
          → pending_among codec to_dict run_id
              (get_events run_id db
                ++ new_event run_id "tool_result" (result_payload r) (some step) (some k) ∷ [])
              step
              o
            ≡ ok calls
          → OtherKeys run_id key calls
      among (some (list vs)) calls same =
          let (parsed, _, kept) =
            bind_returns (calls_from codec to_dict (to_list vs)) _ calls same in
          let e = ok_same _ calls kept in
          subst (OtherKeys run_id key) e
            (kept-OtherKeys run_id k key r step (get_events run_id db) parsed h)
      among none calls same = none_recovered calls same
      among (some null) calls same = none_recovered calls same
      among (some (bool b)) calls same = none_recovered calls same
      among (some (int i)) calls same = none_recovered calls same
      among (some (float x)) calls same = none_recovered calls same
      among (some (str s)) calls same = none_recovered calls same
      among (some (dict d)) calls same = none_recovered calls same
