-- ===== src/Runtime/Repeats.antt =====
-- The no-progress decision of agent/runtime.py, over repeated batches and restarts.
use adversarial_agent_runtim.Prelude.{
  ℕ, suc, ◌<◌, String, true, false, ◌≡◌, refl, ◌∙◌, ap, Option, none, some, List, arith, eq_refl,
  leb, length, if◌then◌else◌,
}
use adversarial_agent_runtim.Json.{Json, num}
use adversarial_agent_runtim.Errors.{ok, raise, no_progress_error}
use adversarial_agent_runtim.Codec.{Codec}
use adversarial_agent_runtim.Response.ToolCalls.{ToolCall}
use adversarial_agent_runtim.Database.Schema.{Event, Database}
use adversarial_agent_runtim.Database.EventLog.{key_recorded, new_event, get_events}
use adversarial_agent_runtim.Runtime.Config.{RunLimits}
use adversarial_agent_runtim.Runtime.Keys.{event_key, tool_progress_digest}
use adversarial_agent_runtim.Runtime.Log.{positive_int}
use adversarial_agent_runtim.Runtime.Progress.{
  is_progress_check, latest_progress_check, next_count, progress_payload, log_loop_control,
  check_progress, raise_if_recorded_no_progress,
}
use adversarial_agent_runtim.Runtime.Appended.{get_events-append_event, first_payload-append_one}

positive_int-limit : (n : ℕ) → positive_int (some (num n)) n ≡ n
positive_int-limit n = ground arith

positive_int-count : (n : ℕ) → positive_int (some (num n)) 0 ≡ n
positive_int-count n = ground arith

-- What a run decides that finds this payload in its log.
recorded_payload :
    (codec : Codec) (limits : RunLimits) (events : List Event) (digest : String) (count n : ℕ)
    → latest_progress_check events none ≡ some (progress_payload limits digest count n)
    → raise_if_recorded_no_progress codec limits events ≡ (
        if leb limits.no_progress_limit n
        then raise no_progress_error "same tool call repeated without progress"
        else ok tt)
unfolding raise_if_recorded_no_progress
recorded_payload codec limits events digest count n found =
    rw (found, raise_if_recorded_no_progress)
      (rw (positive_int-limit limits.no_progress_limit, positive_int-count n))

next_count-payload :
    (limits : RunLimits) (digest : String) (count n : ℕ)
    → next_count digest (some (progress_payload limits digest count n)) ≡ suc n
unfolding next_count
next_count-payload limits digest count n = rw (eq_refl digest, positive_int-count n)

decided :
    (codec : Codec) (limits : RunLimits) (run_id : String) (calls : List ToolCall) (step : ℕ)
    (db : Database)
    → let digest = tool_progress_digest codec calls in
      let n = next_count digest (latest_progress_check (get_events run_id db) (some step)) in
      check_progress codec limits run_id calls step db ≡ (
        if leb limits.no_progress_limit n
            then raise no_progress_error "same tool call repeated without progress"
            else ok tt,
        log_loop_control codec limits run_id step
            (progress_payload limits digest (length calls) n)
            db,
      )
unfolding check_progress
decided codec limits run_id calls step db = ground arith

module _ (codec : Codec) (limits : RunLimits) (run_id : String) (calls : List ToolCall) (step : ℕ)
    (db : Database) where
  -- The count that a check at this step comes to, and what it logs.
  abbrev pub count_here : ℕ
  count_here =
      next_count (tool_progress_digest codec calls)
        (latest_progress_check (get_events run_id db) (some step))

  abbrev pub payload_here : Json
  payload_here =
      progress_payload limits (tool_progress_digest codec calls) (length calls) count_here

  abbrev pub key_here : String
  key_here = event_key codec run_id "loop_control" step payload_here

  latest-logged :
      (before_step : Option ℕ)
      → key_recorded key_here db.events ≡ false
      → is_progress_check before_step
          (new_event run_id "loop_control" payload_here (some step) (some key_here))
        ≡ true
      → latest_progress_check
          (get_events run_id (log_loop_control codec limits run_id step payload_here db))
          before_step
        ≡ some payload_here
  unfolding latest_progress_check log_loop_control
  latest-logged before_step new chosen =
      rw (get_events-append_event run_id "loop_control" key_here payload_here (some step) db new) (
        first_payload-append_one (is_progress_check before_step) (get_events run_id db)
          (new_event run_id "loop_control" payload_here (some step) (some key_here))
        ∙ ground (arith, chosen))

  -- A check whose event key is not recorded yet: a process that starts again reads from the log the same decision,
  -- so that it does not execute a batch that was refused.
  pub recorded-check_progress :
      key_recorded key_here db.events ≡ false
      → let (outcome, logged) = check_progress codec limits run_id calls step db in
        raise_if_recorded_no_progress codec limits (get_events run_id logged) ≡ outcome
  recorded-check_progress new = rw (decided codec limits run_id calls step db) (
      recorded_payload codec limits _ (tool_progress_digest codec calls) (length calls) count_here
        (latest-logged none new refl))

  -- A check whose event key is not recorded yet, and then a check of a batch with the same names and arguments at a
  -- later step: the second raises a NoProgressError exactly when the limit is at most one more than
  -- the count of the first.
  pub check_progress-counts :
      (again : List ToolCall) (later : ℕ)
      → key_recorded key_here db.events ≡ false
      → tool_progress_digest codec again ≡ tool_progress_digest codec calls
      → step < later
      → let logged = (check_progress codec limits run_id calls step db).1 in
        (check_progress codec limits run_id again later logged).0 ≡ (
          if leb limits.no_progress_limit (suc count_here)
          then raise no_progress_error "same tool call repeated without progress"
          else ok tt)
  check_progress-counts again later new same after =
      let logged = log_loop_control codec limits run_id step payload_here db in
      let found : latest_progress_check (get_events run_id logged) (some later)
          ≡ some payload_here =
        latest-logged (some later) new (ground (arith, after)) in
      let counted : next_count (tool_progress_digest codec again)
            (latest_progress_check (get_events run_id logged) (some later))
          ≡ suc count_here =
        rw (found, same) (next_count-payload limits _ (length calls) count_here) in
      rw (decided codec limits run_id calls step db)
        (ap (λ p. p.0) (decided codec limits run_id again later logged) ∙ rw counted refl)
