-- ===== src/Loop/Contradiction.antt =====
-- `_is_incomplete_partial_turn`, `_model_contradiction`, `_is_failure_acknowledgement` and
-- `_latest_failed_tool_results` of agent/runtime.py. A lower case text is the list of its code points.
use adversarial_agent_runtim.Prelude.{
  ℕ, String, Bool, true, false, not, ◌&&◌, Option, none, some, List, [], ◌∷◌, ◌==◌, any, map, ltb,
  keep, or_else, length, if◌then◌else◌, max,
}
use adversarial_agent_runtim.Json.{
  Json, bool, str, list, dict, Fields, end, get, get_field, object, items,
}
use adversarial_agent_runtim.Codec.{Codec, to_text, text_or}
use adversarial_agent_runtim.Text.{codes, lower, occurs}
use adversarial_agent_runtim.Database.Schema.{Event}
use adversarial_agent_runtim.Runtime.Log.{step_is}
use adversarial_agent_runtim.Validator.{ValidatedAgentResponse}
use adversarial_agent_runtim.Loop.Targets.{failed_tool_targets}

-- `_is_incomplete_partial_turn`.
unfoldable pub is_incomplete_partial_turn : ValidatedAgentResponse → Bool
is_incomplete_partial_turn response =
    response.partial_turn && misses response.expected_tool_call_count
  where
    misses : Option ℕ → Bool
    misses none = true
    misses (some expected) = ltb (length response.tool_calls) expected

abbrev pub success_markers : List String
success_markers = "successfully" ∷ "succeeded" ∷ "success" ∷ "completed" ∷ "worked" ∷ []

abbrev pub failure_phrases : List String
failure_phrases =
    "could not complete" ∷ "couldn't complete" ∷ "cannot complete" ∷ "can't complete"
    ∷ "unable to complete" ∷ "did not complete" ∷ "not completed" ∷ "not successful"
    ∷ "unsuccessful" ∷ []

abbrev pub any_in : List String → List ℕ → Bool
any_in parts text = any (λ part. occurs (codes part) text) parts

-- `_is_failure_acknowledgement`, of a lower case text.
unfoldable pub is_failure_acknowledgement : List ℕ → Bool
is_failure_acknowledgement text = any_in failure_phrases text

-- The text claims a success and admits no failure.
unfoldable pub claims_success : String → Bool
claims_success assistant_text =
    not (assistant_text == "")
    && any_in success_markers (lower assistant_text)
    && not (is_failure_acknowledgement (lower assistant_text))

abbrev pub is_step_of : String → ℕ → Event → Bool
is_step_of event_type step event = event.event_type == event_type && step_is step event.step

-- `max(..., default=None)` over the steps of the tool results before the current step.
unfoldable pub latest_tool_step : ℕ → List Event → Option ℕ
latest_tool_step current [] = none
latest_tool_step current (event ∷ events) =
    let rest = latest_tool_step current events in
    if event.event_type == "tool_result" then later event.step rest else rest
  where
    later : Option ℕ → Option ℕ → Option ℕ
    later none rest = rest
    later (some n) none = if ltb n current then some n else none
    later (some n) (some m) = some (if ltb n current then max n m else m)

-- A failed result with the arguments of its call.
pub record FailedResult : Type 0 where
  pub tool_result : Json
  pub arguments : Fields

module _ (codec : Codec) where
  -- `starts.get(tool_call_id)`: the last call of this step that started with this id.
  abbrev pub started_as : String → Option Json → Option Fields
  started_as call_id (some (dict call)) =
      if to_text codec (or_else (get_field "id" call) Json.null) == call_id then some call else none
  started_as call_id other = none

  unfoldable pub started_call : ℕ → String → List Event → Option Fields
  started_call step call_id [] = none
  started_call step call_id (event ∷ events) =
      let later = started_call step call_id events in
      let here =
        if is_step_of "tool_execution_started" step event
        then started_as call_id (get "tool_call" event.payload)
        else none in
      elim later [ some call ↦ some call | none ↦ here ]

  abbrev pub arguments_in : Option Fields → Fields
  arguments_in none = end
  arguments_in (some call) = elim (get_field "arguments" call) [ some (dict d) ↦ d | _ ↦ end ]

  abbrev pub is_false : Option Json → Bool
  is_false (some (bool b)) = not b
  is_false other = false

  -- The failed results at a step, with the arguments among all events.
  unfoldable pub failed_at : ℕ → List Event → List Event → List FailedResult
  failed_at step all_events [] = []
  failed_at step all_events (event ∷ events) =
      let rest = failed_at step all_events events in
      let call_id = text_or codec (get "tool_call_id" event.payload) "" in
      if is_step_of "tool_result" step event && is_false (get "ok" event.payload)
      then record {
        tool_result = event.payload;
        arguments = arguments_in (started_call step call_id all_events);
      }
        ∷ rest
      else rest

  -- `_latest_failed_tool_results`.
  unfoldable pub latest_failed_tool_results : List Event → ℕ → List FailedResult
  latest_failed_tool_results events current = elim (latest_tool_step current events) [
    | none ↦ []
    | some step ↦ failed_at step events events
  ]

  abbrev pub texts : List String → Json
  texts values = list (items (map str values))

  abbrev pub target_contradiction : String → List String → FailedResult → Json
  target_contradiction assistant_text matched failed = object (
      ("reason", str "assistant claimed success for a failed tool result")
      ∷ ("assistant_text", str assistant_text)
      ∷ ("matched_targets", texts matched)
      ∷ ("failed_tool_result", failed.tool_result)
      ∷ ("failed_tool_arguments", dict failed.arguments)
      ∷ [])

  abbrev pub generic_contradiction : String → List FailedResult → Json
  generic_contradiction assistant_text failed_results = object (
      ("reason", str "assistant claimed generic success after a failed tool result")
      ∷ ("assistant_text", str assistant_text)
      ∷ ("matched_targets", texts [])
      ∷ (
        "failed_tool_results",
        list (items (map (λ (failed : FailedResult). failed.tool_result) failed_results)),
      )
      ∷ [])

  module _ (path_name : String → String) where
    -- `matched`.
    unfoldable pub matched_targets : String → FailedResult → List String
    matched_targets assistant_text failed =
        keep
          (λ target.
            not (target == "")
            && occurs (codes (codec.lower target)) (codes (codec.lower assistant_text)))
          (failed_tool_targets path_name codec failed.tool_result failed.arguments)

    -- The loop over the failed results; `none` when no target is in the text.
    unfoldable pub first_match : String → List FailedResult → Option Json
    first_match assistant_text [] = none
    first_match assistant_text (failed ∷ rest) = elim (matched_targets assistant_text failed) [
      | [] ↦ first_match assistant_text rest
      | target ∷ more ↦ some (target_contradiction assistant_text (target ∷ more) failed)
    ]

    -- What the claim of a success contradicts.
    unfoldable pub contradicted : String → List FailedResult → Option Json
    contradicted assistant_text [] = none
    contradicted assistant_text (failed ∷ rest) = some (
        or_else (first_match assistant_text (failed ∷ rest))
          (generic_contradiction assistant_text (failed ∷ rest)))

    -- `_model_contradiction`, on the events of the run.
    unfoldable pub model_contradiction : List Event → String → ℕ → Option Json
    model_contradiction events assistant_text step =
        if claims_success assistant_text
        then contradicted assistant_text (latest_failed_tool_results events step)
        else none
