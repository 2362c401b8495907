-- ===== src/Loop/Steps.antt =====
-- The parts of a round that keep the step in its bounds, agent/runtime.py.
use adversarial_agent_runtim.Prelude.{
  ℕ, ◌≤◌, String, some, List, [], ◌∷◌, inl, inr, Bool-cases, Option-cases,
}
use adversarial_agent_runtim.Json.{Json}
use adversarial_agent_runtim.Errors.{Result-cases}
use adversarial_agent_runtim.Stateful.{and_then-keeps}
use adversarial_agent_runtim.Database.EventLog.{get_events}
use adversarial_agent_runtim.Database.RunRows.{Changes, update_run, finish_run}
use adversarial_agent_runtim.Response.ToolCalls.{ToolCall}
use adversarial_agent_runtim.Validator.{ValidatedAgentResponse}
use adversarial_agent_runtim.Loop.State.{Runtime, Running}
use adversarial_agent_runtim.Loop.Contradiction.{is_incomplete_partial_turn, model_contradiction}
use adversarial_agent_runtim.Loop.Turn.{
  set_run, finish, start_recovered, recover_pending, run_pending, process_recorded,
}
use adversarial_agent_runtim.Loop.Iterate.{
  accept, charge, reject_partial, accept_final, accept_calls, judge,
}

-- The step lies between the two.
abbrev pub Within : {W C : Type 0} → ℕ → ℕ → Running W C → Type 0
Within low high s = (low ≤ s.step) × (s.step ≤ high)

module _ {W C : Type 0} (runtime : Runtime W C) (run_id task : String) where
  module _ (low high : ℕ) where
    pub set_run-Within :
        (changes : Changes) (s : Running W C)
        → Within low high s
        → Within low high (set_run runtime run_id task changes s).1
    unfolding set_run
    set_run-Within changes s h = elim (Result-cases (update_run run_id changes s.db)) [
      | inl (db, done) ↦ rw (done, set_run) h
      | inr (e, failed) ↦ rw (failed, set_run) h
    ]

    pub finish-Within :
        (reason : String) (s : Running W C)
        → Within low high s
        → Within low high (finish runtime run_id task reason s).1
    unfolding finish
    finish-Within reason s h = elim (Result-cases (finish_run run_id reason (some s.step) s.db)) [
      | inl (db, done) ↦ rw (done, finish) h
      | inr (e, failed) ↦ rw (failed, finish) h
    ]

    pub start_recovered-Within :
        (calls : List ToolCall) (s : Running W C)
        → Within low high s
        → Within low high (start_recovered runtime run_id task calls s).1
    unfolding start_recovered
    start_recovered-Within [] s h = h
    start_recovered-Within (call ∷ calls) s h =
        and_then-keeps (Within low high) _ _ (set_run-Within _ s h) (λ _ s h. h)

    pub recover_pending-Within :
        (calls : List ToolCall) (s : Running W C)
        → Within low high s
        → Within low high (recover_pending runtime run_id task calls s).1
    unfolding recover_pending
    recover_pending-Within [] s h = and_then-keeps (Within low high) _ _ h start_recovered-Within
    recover_pending-Within (call ∷ calls) s h = h

    pub run_pending-Within :
        (s : Running W C)
        → Within low high s
        → Within low high (run_pending runtime run_id task s).1
    unfolding run_pending
    run_pending-Within s h = and_then-keeps (Within low high) _ _ h (λ results s h.
        and_then-keeps (Within low high) _ _ (set_run-Within _ (record s { pending = [] }) h)
          (λ _ s h. h))

    pub process_recorded-Within :
        (response : Json) (s : Running W C)
        → Within low high s
        → Within low high (process_recorded runtime run_id task response s).1
    unfolding process_recorded
    process_recorded-Within response s h = and_then-keeps (Within low high) _ _ h (λ counts s h. h)

    pub charge-Within :
        (response : ValidatedAgentResponse) (s : Running W C)
        → Within low high s
        → Within low high (charge runtime run_id task response s).1
    unfolding charge
    charge-Within response s h = and_then-keeps (Within low high) _ _ h (λ total s h. h)

    pub accept_calls-Within :
        (response : ValidatedAgentResponse) (s : Running W C)
        → Within low high s
        → Within low high (accept_calls runtime run_id task response s).1
    unfolding accept_calls
    accept_calls-Within response s h =
        and_then-keeps (Within low high) _ _ h
          (λ written s h. and_then-keeps (Within low high) _ _ h (λ _ s h. h))

    pub accept_final-Within :
        (response : ValidatedAgentResponse) (s : Running W C)
        → Within low high s
        → Within low high (accept_final runtime run_id task response s).1
    unfolding accept_final
    accept_final-Within response s h =
        elim (Option-cases (
          model_contradiction runtime.codec runtime.path_name (get_events run_id s.db)
            response.assistant_text s.step)) [
              | inl fine ↦ rw (fine, accept_final) (finish-Within "completed" s h)
              | inr (payload, found) ↦ rw (found, accept_final) h
            ]

    pub judge-Within :
        (response : ValidatedAgentResponse) (s : Running W C)
        → Within low high s
        → Within low high (judge runtime run_id task response s).1
    unfolding judge reject_partial accept
    judge-Within response s h = elim (Bool-cases (is_incomplete_partial_turn response)) [
      | inl partial ↦ rw partial h
      | inr complete ↦ rw complete (by_calls response.tool_calls)
    ]
      where
        by_calls :
            (calls : List ToolCall)
            → Within low high (accept runtime run_id task calls response s).1
        by_calls [] = accept_final-Within response s h
        by_calls (call ∷ calls) = accept_calls-Within response s h
