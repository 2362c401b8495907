-- ===== src/Loop/Caught.antt =====
-- Errors and finished runs in `AgentRuntime.run`, agent/runtime.py.
use adversarial_agent_runtim.Prelude.{ℕ, suc, String, ◌≡◌, true, some, [], ltb, arith, eq_refl}
use adversarial_agent_runtim.Errors.{Error, ok, raised, is_agent_error}
use adversarial_agent_runtim.Database.Schema.{RunState, Database}
use adversarial_agent_runtim.Database.RunRows.{get_run}
use adversarial_agent_runtim.Durability.Progress.{finish_run_lem}
use adversarial_agent_runtim.Loop.State.{Runtime, Running, returned}
use adversarial_agent_runtim.Loop.Turn.{finish}
use adversarial_agent_runtim.Loop.Iterate.{reason_of, attempt, caught, round}
use adversarial_agent_runtim.Loop.Run.{after_round, loop}

module _ {W C : Type 0} (runtime : Runtime W C) (run_id task : String) where
  -- The row of a run that ended for this reason at this step.
  abbrev pub ended_row : RunState → ℕ → String → RunState
  ended_row current step reason = record current {
    status = "FINISHED";
    step_count = step;
    termination_reason = some reason;
    pending_tool_calls = [];
  }

  finish-known :
      (reason : String) (s : Running W C) (current : RunState)
      → get_run run_id s.db ≡ some current
      → (db : Database) × (finish runtime run_id task reason s
          ≡ (ok (returned (some (ended_row current s.step reason))), record s { db = db }))
  unfolding finish
  finish-known reason s current found =
      let (written, done, row, _) =
        finish_run_lem run_id reason run_id (some s.step) current s.db found in
      let here : get_run run_id written ≡ some (ended_row current s.step reason) =
        ground (arith, row, eq_refl run_id) in
      (written, rw (done, finish, here))

  -- When a round below the step limit raises an AgentError, and the run is known to the store that the
  -- round leaves, the loop ends there, with any fuel that is not zero: `run` gets the run's row with
  -- the status FINISHED, the step that was reached, and the class and the message of the error as
  -- the reason.
  pub loop-caught :
      (fuel : ℕ) (e : Error) (s s' : Running W C) (current : RunState)
      → ltb s.step runtime.max_steps ≡ true
      → attempt runtime run_id task s ≡ (raised e, s')
      → is_agent_error e.class ≡ true
      → get_run run_id s'.db ≡ some current
      → (db : Database) × (loop runtime run_id task (suc fuel) s
          ≡ some (ok (some (ended_row current s'.step (reason_of e))), record s' { db = db }))
  unfolding loop round caught after_round
  loop-caught fuel e s s' current more failed agent found =
      let (db, done) = finish-known (reason_of e) s' current found in
      (db, rw (more, loop, failed, agent, done))
