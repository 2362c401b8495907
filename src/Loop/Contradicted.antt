-- ===== src/Loop/Contradicted.antt =====
-- When a final text contradicts the tool results, agent/runtime.py.
use mathlib.Core.Path.{subst}
use adversarial_agent_runtim.Prelude.{
  ℕ, String, ◌≡◌, refl, ◌∙◌, Bool, true, false, ◌&&◌, Option, none, some, List, ◌∷◌, Bool-cases,
  Option-cases, inl, inr, is_some, any, sym, ◌↔◌, ◌<◌, ◌≤◌, arith, not, ◌==◌, [], eq_iff,
}
use adversarial_agent_runtim.Json.{get}
use adversarial_agent_runtim.Codec.{Codec}
use adversarial_agent_runtim.Database.Schema.{Event}
use adversarial_agent_runtim.Text.{lower, occurs, codes, starts}
use adversarial_agent_runtim.Loop.LatestStep.{HasResultAt, latest_sound, latest_max}
use adversarial_agent_runtim.Loop.Contradiction.{
  success_markers, failure_phrases, any_in, is_failure_acknowledgement, claims_success,
  latest_tool_step, FailedResult, is_false, is_step_of, failed_at, latest_failed_tool_results,
  contradicted, model_contradiction,
}

-- Some tool result of the step says `"ok": false`.
abbrev pub has_failure_at : Codec → ℕ → List Event → Bool
has_failure_at codec step events =
    any (λ event. is_step_of "tool_result" step event && is_false codec (get "ok" event.payload))
      events

-- The same, where there may be no step.
abbrev pub has_failure_then : Codec → List Event → Option ℕ → Bool
has_failure_then codec events none = false
has_failure_then codec events (some step) = has_failure_at codec step events

module _ (codec : Codec) (path_name : String → String) where
  abbrev is_nonempty : List FailedResult → Bool
  is_nonempty [] = false
  is_nonempty (failed ∷ rest) = true

  contradicted-nonempty :
      (text : String) (failed : List FailedResult)
      → is_some (contradicted codec path_name text failed) ≡ is_nonempty failed
  unfolding contradicted
  contradicted-nonempty text [] = refl
  contradicted-nonempty text (failed ∷ rest) = refl

  failed_at-nonempty :
      (step : ℕ) (all_events events : List Event)
      → is_nonempty (failed_at codec step all_events events) ≡ has_failure_at codec step events
  unfolding failed_at
  failed_at-nonempty step all_events [] = refl
  failed_at-nonempty step all_events (event ∷ events) =
      elim (Bool-cases
        (is_step_of "tool_result" step event && is_false codec (get "ok" event.payload))) [
          | inl failed ↦ rw failed
          | inr fine ↦ rw fine (failed_at-nonempty step all_events events)
        ]

  -- Whether the latest tool step before the current one has a failure.
  abbrev pub latest_failed : List Event → ℕ → Bool
  latest_failed events current = has_failure_then codec events (latest_tool_step current events)

  latest-nonempty :
      (events : List Event) (current : ℕ)
      → is_nonempty (latest_failed_tool_results codec events current) ≡ latest_failed events current
  unfolding latest_failed_tool_results
  latest-nonempty events current = elim (Option-cases (latest_tool_step current events)) [
    | inl nothing ↦ rw (nothing, latest_failed_tool_results)
    | inr (step, found) ↦
        rw (found, latest_failed_tool_results) (failed_at-nonempty step events events)
  ]

  -- The latest step before the current one that has a tool result has a failed one.
  abbrev pub LatestHasFailed : List Event → ℕ → Type 0
  LatestHasFailed events current =
      (m : ℕ) × (m < current)
      × (has_failure_at codec m events ≡ true)
      × ((n : ℕ) → n < current → HasResultAt n events → n ≤ m)

  -- The text has a word of success and no phrase that admits a failure.
  abbrev pub Claims : String → Type 0
  Claims text =
      (any_in success_markers (lower text) ≡ true) × (any_in failure_phrases (lower text) ≡ false)

  has_result :
      (m : ℕ) (events : List Event) → has_failure_at codec m events ≡ true → HasResultAt m events
  has_result m [] failed = cc
  has_result m (event ∷ events) failed = ground (arith, failed, has_result m events)

  latest_failed_lem :
      (events : List Event) (current : ℕ)
      → (latest_failed events current ≡ true) ↔ LatestHasFailed events current
  latest_failed_lem events current = (
    λ failed. elim (Option-cases (latest_tool_step current events)) [
      | inl nothing ↦ let wrong : false ≡ true = rw nothing at failed in cc
      | inr (m, found) ↦
          let (small, _) = latest_sound current m events found in
          (
            m,
            small,
            rw found at failed,
            λ n less there.
                let (m', found', most) = latest_max current n events less there in
                let same : some m ≡ some m' = sym found ∙ found' in ground (arith, same, most),
          )
    ],
    λ (m, small, failed, most).
        let (m', found, least) = latest_max current m events small (has_result m events failed) in
        let (small', there) = latest_sound current m' events found in
        let upper = most m' small' there in
        let same : m ≡ m' = omega (arith, least, upper) in rw (found, sym same) failed,
  )

  no_words : (text : String) → (text == "") ≡ true → any_in success_markers (lower text) ≡ false
  unfolding lower occurs codes starts
  no_words text empty =
      subst (λ t. any_in success_markers (lower t) ≡ false) (sym ((eq_iff text "").0 empty)) refl

  claims_parts :
      (a b c : Bool)
      → (a ≡ true → b ≡ false)
      → ((not a && b && not c) ≡ true) ↔ ((b ≡ true) × (c ≡ false))
  claims_parts true b c h = (λ wrong. cc, λ (says, admits). let off = h refl in cc)
  claims_parts false true true h = (λ wrong. cc, λ (says, admits). cc)
  claims_parts false true false h = (λ held. (refl, refl), λ (says, admits). refl)
  claims_parts false false c h = (λ wrong. cc, λ (says, admits). cc)

  claims_lem : (text : String) → (claims_success text ≡ true) ↔ Claims text
  unfolding claims_success is_failure_acknowledgement
  claims_lem text =
      claims_parts (text == "") (any_in success_markers (lower text))
        (any_in failure_phrases (lower text)) (no_words text)

  reported :
      (events : List Event) (text : String) (step : ℕ)
      → is_some (model_contradiction codec path_name events text step)
        ≡ (claims_success text && latest_failed events step)
  unfolding model_contradiction
  reported events text step = elim (Bool-cases (claims_success text)) [
    | inl claims ↦
        rw (claims, model_contradiction)
          (contradicted-nonempty text (latest_failed_tool_results codec events step)
            ∙ latest-nonempty events step)
    | inr modest ↦ rw (modest, model_contradiction)
  ]

  -- A contradiction is reported exactly if the text has a word of success and no phrase that admits a
  -- failure, and at the latest step before the current one that has a tool result, some tool result
  -- has failed.
  pub model_contradiction_iff :
      (events : List Event) (text : String) (step : ℕ)
      → (is_some (model_contradiction codec path_name events text step) ≡ true)
        ↔ (Claims text × LatestHasFailed events step)
  model_contradiction_iff events text step =
      let same = reported events text step in
      let claims = claims_lem text in
      let failed = latest_failed_lem events step in
      (
        λ found.
            let both : (claims_success text && latest_failed events step) ≡ true =
              sym same ∙ found in
            (claims.0 (ground (arith, both)), failed.0 (ground (arith, both))),
        λ (says, fails). same ∙ ground (arith, claims.1 says, failed.1 fails),
      )
