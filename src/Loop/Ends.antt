-- ===== src/Loop/Ends.antt =====
-- How `AgentRuntime.run` ends, agent/runtime.py.
use adversarial_agent_runtim.Prelude.{
  ℕ, String, ◌≡◌, refl, true, false, Option, none, some, List, [], ◌∷◌, eq_refl, arith, inl, inr,
  Bool-cases, Option-cases,
}
use adversarial_agent_runtim.Errors.{Result, ok, raised, is_agent_error}
use adversarial_agent_runtim.Stateful.{Outcome, and_then-ends}
use adversarial_agent_runtim.Json.{Json}
use adversarial_agent_runtim.Database.Schema.{RunState, Database}
use adversarial_agent_runtim.Database.EventLog.{get_events}
use adversarial_agent_runtim.Database.RunRows.{get_run}
use adversarial_agent_runtim.Durability.Progress.{finish_run_lem, unknown_run}
use adversarial_agent_runtim.Response.ToolCalls.{ToolCall}
use adversarial_agent_runtim.Validator.{ValidatedAgentResponse}
use adversarial_agent_runtim.Loop.State.{Runtime, Running, Round, next_round, returned}
use adversarial_agent_runtim.Loop.Contradiction.{is_incomplete_partial_turn, model_contradiction}
use adversarial_agent_runtim.Loop.Turn.{no_changes, finish, run_pending}
use adversarial_agent_runtim.Loop.Iterate.{
  reject_partial, accept_final, accept_calls, accept, judge, model_round, pending_or_model, attempt,
  reason_of, caught, round, limit_reached,
}
use adversarial_agent_runtim.Loop.Run.{loop}
use adversarial_agent_runtim.Loop.Rounds.{LeadsTo, loop-leads}

module _ {W C : Type 0} (runtime : Runtime W C) (run_id task : String) where
  -- The run's row in the store is this one, and it says that the run is over.
  abbrev pub IsOver : RunState → Database → Type 0
  IsOver state db =
      (get_run run_id db ≡ some state)
      × (state.status ≡ "FINISHED")
      × (state.pending_tool_calls ≡ [])

  -- The loop returned the row of a run that is over, or raised an error that is no AgentError.
  abbrev pub Ended : Result (Option RunState) → Running W C → Type 0
  Ended (ok none) s = false ≡ true
  Ended (ok (some state)) s = IsOver state s.db
  Ended (raised e) s = is_agent_error e.class ≡ false

  abbrev Unfinished : Running W C → Type 0
  Unfinished s = Unit

  -- A round that leads to another one, or to the end of the loop.
  abbrev Settles : Outcome Round (Running W C) → Type 0
  Settles outcome = LeadsTo runtime run_id task Unfinished Ended outcome

  finish-Settles :
      (reason : String) (s : Running W C) → Settles (finish runtime run_id task reason s)
  unfolding finish is_agent_error
  finish-Settles reason s = elim (Option-cases (get_run run_id s.db)) [
    | inl missing ↦
        let (_, _, failed) =
          unknown_run run_id "" reason Json.null no_changes (some s.step) none s.db missing in
        rw (failed, finish) refl
    | inr (current, found) ↦
        let (written, done, row, _) =
          finish_run_lem run_id reason run_id (some s.step) current s.db found in
        let now : RunState = record current {
          status = "FINISHED";
          step_count = s.step;
          termination_reason = some reason;
          pending_tool_calls = [];
        } in
        let here : get_run run_id written ≡ some now = ground (arith, row, eq_refl run_id) in
        rw (done, finish, here) (here, refl, refl)
  ]

  -- The same, but an error may be any.
  abbrev MaySettle : Outcome Round (Running W C) → Type 0
  MaySettle (ok next_round, s) = Unit
  MaySettle (ok (returned state), s) = Ended (ok state) s
  MaySettle (raised e, s) = Unit

  weaken : (outcome : Outcome Round (Running W C)) → Settles outcome → MaySettle outcome
  weaken (ok next_round, s) h = tt
  weaken (ok (returned state), s) h = h
  weaken (raised e, s) h = tt

  accept_final-MaySettle :
      (response : ValidatedAgentResponse) (s : Running W C)
      → MaySettle (accept_final runtime run_id task response s)
  unfolding accept_final
  accept_final-MaySettle response s =
      elim (Option-cases (
        model_contradiction runtime.codec runtime.path_name (get_events run_id s.db)
          response.assistant_text s.step)) [
            | inl fine ↦ rw (fine, accept_final) (weaken _ (finish-Settles "completed" s))
            | inr (payload, found) ↦ rw (found, accept_final) tt
          ]

  accept_calls-MaySettle :
      (response : ValidatedAgentResponse) (s : Running W C)
      → MaySettle (accept_calls runtime run_id task response s)
  unfolding accept_calls
  accept_calls-MaySettle response s =
      and_then-ends MaySettle _ _ (λ e s. tt)
        (λ written s. and_then-ends MaySettle _ _ (λ e s. tt) (λ _ s. tt))

  judge-MaySettle :
      (response : ValidatedAgentResponse) (s : Running W C)
      → MaySettle (judge runtime run_id task response s)
  unfolding judge reject_partial accept
  judge-MaySettle response s = elim (Bool-cases (is_incomplete_partial_turn response)) [
    | inl partial ↦ rw partial tt
    | inr complete ↦ rw complete (by_calls response.tool_calls)
  ]
    where
      by_calls : (calls : List ToolCall) → MaySettle (accept runtime run_id task calls response s)
      by_calls [] = accept_final-MaySettle response s
      by_calls (call ∷ calls) = accept_calls-MaySettle response s

  pending_or_model-MaySettle :
      (calls : List ToolCall) (s : Running W C)
      → MaySettle (pending_or_model runtime run_id task calls s)
  unfolding pending_or_model model_round run_pending
  pending_or_model-MaySettle [] s =
      and_then-ends MaySettle _ _ (λ e s. tt)
        (λ response s. and_then-ends MaySettle _ _ (λ e s. tt) (λ _ s. judge-MaySettle response s))
  pending_or_model-MaySettle (call ∷ calls) s =
      and_then-ends MaySettle _ _ (λ e s. tt)
        (λ results s. and_then-ends MaySettle _ _ (λ e s. tt) (λ _ s. tt))

  attempt-MaySettle : (s : Running W C) → MaySettle (attempt runtime run_id task s)
  unfolding attempt
  attempt-MaySettle s =
      and_then-ends MaySettle _ _ (λ e s. tt)
        (λ _ s.
          and_then-ends MaySettle _ _ (λ e s. tt) (λ _ s. pending_or_model-MaySettle s.pending s))

  caught-Settles :
      (outcome : Outcome Round (Running W C))
      → MaySettle outcome
      → Settles (caught runtime run_id task outcome)
  unfolding caught
  caught-Settles (ok next_round, s) h = tt
  caught-Settles (ok (returned state), s) h = h
  caught-Settles (raised e, s) h = elim (Bool-cases (is_agent_error e.class)) [
    | inl agent ↦ rw agent (finish-Settles (reason_of e) s)
    | inr other ↦ rw other other
  ]

  -- However the loop ends, it either returns the row of the run as the store then has it, with the
  -- status FINISHED and no pending calls, or it raises an error that is no AgentError: every
  -- AgentError of a round, and the step limit, end the run.
  pub loop-Ended :
      (fuel : ℕ) (s s' : Running W C) (r : Result (Option RunState))
      → loop runtime run_id task fuel s ≡ some (r, s')
      → Ended r s'
  unfolding round limit_reached
  loop-Ended fuel s s' r ended =
      loop-leads runtime run_id task Unfinished Ended
        (λ s more _. caught-Settles (attempt runtime run_id task s) (attempt-MaySettle s))
        (λ s last _. finish-Settles _ _) fuel s s' r tt ended
