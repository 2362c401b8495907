-- ===== src/Runtime/Progress.antt =====
-- `_check_progress` and `_raise_if_recorded_no_progress` of agent/runtime.py. The run's tracer writes
-- to a file of its own and is left out.
use adversarial_agent_runtim.Prelude.{
  ℕ, suc, String, Bool, true, false, ◌&&◌, Option, none, some, List, [], ◌∷◌, ◌==◌, ltb, leb,
  if◌then◌else◌, reverse, length,
}
use adversarial_agent_runtim.Json.{Json, str, num, get, object}
use adversarial_agent_runtim.Errors.{Result, ok, raise, no_progress_error}
use adversarial_agent_runtim.Codec.{Codec}
use adversarial_agent_runtim.Response.ToolCalls.{ToolCall}
use adversarial_agent_runtim.Database.Schema.{Event, Database}
use adversarial_agent_runtim.Database.EventLog.{append_event, get_events}
use adversarial_agent_runtim.Runtime.Config.{RunLimits}
use adversarial_agent_runtim.Runtime.Keys.{event_key, tool_progress_digest}
use adversarial_agent_runtim.Runtime.Log.{first_payload, positive_int}

-- `value == text`.
abbrev pub is_text : Option Json → String → Bool
is_text (some (str s)) text = s == text
is_text other text = false

-- The `before_step` argument; without it every step will do.
abbrev pub stands_before : Option ℕ → Option ℕ → Bool
stands_before none step = true
stands_before (some bound) none = false
stands_before (some bound) (some n) = ltb n bound

abbrev pub is_progress_check : Option ℕ → Event → Bool
is_progress_check before_step event =
    event.event_type == "loop_control"
    && is_text (get "decision" event.payload) "progress_check"
    && stands_before before_step event.step

unfoldable pub latest_progress_check : List Event → Option ℕ → Option Json
latest_progress_check events before_step =
    first_payload (is_progress_check before_step) (reverse events)

-- The repeat count that follows a previous check, if there is one.
unfoldable pub next_count : String → Option Json → ℕ
next_count digest none = 1
next_count digest (some previous) =
    if is_text (get "tool_digest" previous) digest
    then suc (positive_int (get "repeat_count" previous) 0)
    else 1

abbrev pub progress_payload : RunLimits → String → ℕ → ℕ → Json
progress_payload limits digest tool_count repeat_count = object (
    ("decision", str "progress_check")
    ∷ ("tool_digest", str digest)
    ∷ ("tool_count", num tool_count)
    ∷ ("repeat_count", num repeat_count)
    ∷ ("no_progress_limit", num limits.no_progress_limit)
    ∷ [])

module _ (codec : Codec) (limits : RunLimits) where
  -- `_log_loop_control`.
  unfoldable pub log_loop_control : String → ℕ → Json → Database → Database
  log_loop_control run_id step payload db =
      (append_event run_id "loop_control" payload (some step)
        (some (event_key codec run_id "loop_control" step payload)) db).1

  unfoldable pub check_progress :
      String → List ToolCall → ℕ → Database → Result (Unit {0}) × Database
  check_progress run_id calls step db =
      let digest = tool_progress_digest codec calls in
      let repeat_count =
        next_count digest (latest_progress_check (get_events run_id db) (some step)) in
      let logged =
        log_loop_control run_id step (progress_payload limits digest (length calls) repeat_count)
          db in
      if leb limits.no_progress_limit repeat_count
      then (raise no_progress_error "same tool call repeated without progress", logged)
      else (ok tt, logged)

  unfoldable pub raise_if_recorded_no_progress : List Event → Result (Unit {0})
  raise_if_recorded_no_progress events = elim (latest_progress_check events none) [
    | none ↦ ok tt
    | some progress ↦
        if leb (positive_int (get "no_progress_limit" progress) limits.no_progress_limit)
          (positive_int (get "repeat_count" progress) 0)
        then raise no_progress_error "same tool call repeated without progress"
        else ok tt
  ]
