-- ===== src/Loop/Stuck.antt =====
-- A loop that makes no progress, `AgentRuntime.run` of agent/runtime.py.
use adversarial_agent_runtim.Prelude.{
  ℕ, zero, suc, String, ◌≡◌, refl, ap, ◌∙◌, true, none, some, List, [], ◌∷◌, ltb, arith, eq_refl,
}
use adversarial_agent_runtim.Errors.{ok}
use adversarial_agent_runtim.Stateful.{and_then}
use adversarial_agent_runtim.Database.Schema.{RunState, Database}
use adversarial_agent_runtim.Database.EventLog.{get_events, with_ids}
use adversarial_agent_runtim.Database.RunRows.{
  Changes, changed, get_run, set_columns, write_run, save_state, update_run,
}
use adversarial_agent_runtim.Database.SideEffects.{get_tool_execution}
use adversarial_agent_runtim.Durability.Progress.{get_run-write_run}
use adversarial_agent_runtim.Response.ToolCalls.{ToolCall}
use adversarial_agent_runtim.Runtime.Progress.{raise_if_recorded_no_progress}
use adversarial_agent_runtim.Runtime.Pending.{recover_pending_tool_calls}
use adversarial_agent_runtim.Batch.Waiting.{Reorders}
use adversarial_agent_runtim.Batch.Reported.{
  AllReported, AllReported-with_ids, execute_tool_calls-reported,
}
use adversarial_agent_runtim.Loop.State.{Runtime, Running, next_round, process_of}
use adversarial_agent_runtim.Loop.Turn.{
  tools_changes, set_run, start_recovered, recover_pending, run_pending,
}
use adversarial_agent_runtim.Loop.Iterate.{pending_or_model, attempt, caught, round}
use adversarial_agent_runtim.Loop.Run.{after_round, loop}

module _ {W C : Type 0} (runtime : Runtime W C) (run_id task : String) where
  -- The store shows calls of a step as unfinished although all their events are recorded.
  pub record IsStuckStore (step : ℕ) (call : ToolCall) (calls : List ToolCall) (db : Database)
      : Type 0 where
    pub progresses :
        raise_if_recorded_no_progress runtime.codec runtime.limits (get_events run_id db) ≡ ok tt
    pub unfinished :
        recover_pending_tool_calls runtime.codec runtime.to_dict run_id (get_events run_id db) step
        ≡ ok (call ∷ calls)
    pub reported : AllReported runtime.codec run_id step 0 (call ∷ calls) db
    pub known : (row : RunState) × (get_run run_id db ≡ some row)

  -- A round begins with such a store, no pending calls, and a step below the limit.
  pub record IsStuck (call : ToolCall) (calls : List ToolCall) (s : Running W C) : Type 0 where
    pub more : ltb s.step runtime.max_steps ≡ true
    pub idle : s.pending ≡ []
    pub store : IsStuckStore s.step call calls s.db

  AllReported-write_run :
      (step index : ℕ) (calls : List ToolCall) (next : RunState) (db : Database)
      → AllReported runtime.codec run_id step index calls db
      → AllReported runtime.codec run_id step index calls (write_run run_id next db)
  unfolding write_run save_state get_tool_execution
  AllReported-write_run step index [] next db h = tt
  AllReported-write_run step index (call ∷ calls) next db (h, rest) =
      (h, AllReported-write_run step (suc index) calls next db rest)

  get_run-here :
      (next row : RunState) (db : Database)
      → get_run run_id db ≡ some row
      → get_run run_id (write_run run_id next db) ≡ some (set_columns next row)
  get_run-here next row db found =
      ground (arith, get_run-write_run run_id run_id next db, found, eq_refl run_id)

  write_run-IsStuckStore :
      (step : ℕ) (call : ToolCall) (calls : List ToolCall) (next row : RunState) (db : Database)
      → get_run run_id db ≡ some row
      → IsStuckStore step call calls db
      → IsStuckStore step call calls (write_run run_id next db)
  unfolding write_run save_state get_events
  write_run-IsStuckStore step call calls next row db found h = record {
    progresses = h.progresses;
    unfinished = h.unfinished;
    reported = AllReported-write_run step 0 (call ∷ calls) next db h.reported;
    known = (set_columns next row, get_run-here next row db found);
  }

  with_ids-IsStuckStore :
      (n step : ℕ) (call : ToolCall) (calls : List ToolCall) (db : Database)
      → IsStuckStore step call calls db
      → IsStuckStore step call calls (with_ids n db)
  unfolding get_events get_run
  with_ids-IsStuckStore n step call calls db h = record {
    progresses = h.progresses;
    unfinished = h.unfinished;
    reported = AllReported-with_ids runtime.codec run_id step n 0 (call ∷ calls) db h.reported;
    known = h.known;
  }

  set_run-IsStuckStore :
      (changes : Changes) (call : ToolCall) (calls : List ToolCall) (s : Running W C)
      → IsStuckStore s.step call calls s.db
      → (db : Database) × (set_run runtime run_id task changes s ≡ (ok tt, record s { db = db }))
        × IsStuckStore s.step call calls db
  unfolding set_run update_run
  set_run-IsStuckStore changes call calls s h =
      let (row, found) = h.known in
      (
        write_run run_id (changed changes row) s.db,
        rw (found, set_run),
        write_run-IsStuckStore s.step call calls (changed changes row) row s.db found h,
      )

  -- The recovered calls become pending again.
  recover_pending-stuck :
      (call : ToolCall) (calls : List ToolCall) (s : Running W C)
      → IsStuckStore s.step call calls s.db
      → (db : Database) × (recover_pending runtime run_id task [] s
          ≡ (ok tt, record s { db = db; pending = call ∷ calls; status = "RUNNING_TOOLS" }))
        × IsStuckStore s.step call calls db
  unfolding recover_pending start_recovered and_then
  recover_pending-stuck call calls s h =
      let (db, written, h') =
        set_run-IsStuckStore (tools_changes "RUNNING_TOOLS" s.step (call ∷ calls)) call calls s h in
      (db, rw (h.unfinished, recover_pending, written), h')

  -- They are executed from their rows, and nothing is reported.
  run_pending-stuck :
      (call : ToolCall) (calls : List ToolCall) (s : Running W C)
      → Reorders runtime.disk.finish_order
      → s.pending ≡ call ∷ calls
      → IsStuckStore s.step call calls s.db
      → (db : Database) × (run_pending runtime run_id task s
          ≡ (ok next_round, record s { db = db; pending = []; status = "CALLING_LLM" }))
        × IsStuckStore s.step call calls db
  unfolding run_pending and_then
  run_pending-stuck call calls s reorders waiting h =
      let (rs, n, ran) =
        execute_tool_calls-reported runtime.codec run_id s.step runtime.disk (runtime.now s.step)
          (call ∷ calls) (process_of s) reorders h.reported in
      let (db, written, h') =
        set_run-IsStuckStore (tools_changes "CALLING_LLM" s.step []) call calls
          (record s { db = with_ids n s.db; pending = [] })
          (with_ids-IsStuckStore n s.step call calls s.db h) in
      (db, rw (waiting, run_pending, ran, written), h')

  attempt-stuck :
      (call : ToolCall) (calls : List ToolCall) (s : Running W C)
      → Reorders runtime.disk.finish_order
      → IsStuck call calls s
      → (db : Database) × (attempt runtime run_id task s
          ≡ (ok next_round, record s { db = db; pending = []; status = "CALLING_LLM" }))
        × IsStuckStore s.step call calls db
  unfolding attempt pending_or_model and_then
  attempt-stuck call calls s reorders h =
      let (db, recovered, h') = recover_pending-stuck call calls s h.store in
      let again : Running W C = record s {
        db = db;
        pending = call ∷ calls;
        status = "RUNNING_TOOLS";
      } in
      let (db', ran, h2) = run_pending-stuck call calls again reorders refl h' in
      let opened = ap (λ p. recover_pending runtime run_id task p s) h.idle ∙ recovered in
      (db', rw (h.store.progresses, attempt, opened, ran), h2)

  pub round-IsStuck :
      (call : ToolCall) (calls : List ToolCall) (s : Running W C)
      → Reorders runtime.disk.finish_order
      → IsStuck call calls s
      → (s' : Running W C) × (round runtime run_id task s ≡ (ok next_round, s'))
        × IsStuck call calls s'
  unfolding round caught
  round-IsStuck call calls s reorders h =
      let (db, tried, h') = attempt-stuck call calls s reorders h in
      (
        record s { db = db; pending = []; status = "CALLING_LLM" },
        rw tried,
        record { more = h.more; idle = refl; store = h' },
      )

  -- When the recovered calls of a step all have executions and the keys of their events are recorded,
  -- as an email is that was already asked for at an earlier step, and the last progress check is
  -- below the limit, and when the run is known, no calls are pending and the step is below max_steps,
  -- then the loop never ends: no number of rounds is enough.
  pub loop-stuck :
      (fuel : ℕ) (call : ToolCall) (calls : List ToolCall) (s : Running W C)
      → Reorders runtime.disk.finish_order
      → IsStuck call calls s
      → loop runtime run_id task fuel s ≡ none
  unfolding loop after_round
  loop-stuck zero call calls s reorders h = refl
  loop-stuck (suc fuel) call calls s reorders h =
      let (s', went, h') = round-IsStuck call calls s reorders h in
      rw (h.more, loop, went) (loop-stuck fuel call calls s' reorders h')
