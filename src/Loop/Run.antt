-- ===== src/Loop/Run.antt =====
-- agent/runtime.py, `AgentRuntime.run`, `run_task` and `resume`. The rounds of the loop are counted
-- down from fuel; without any left the result is `none`.
use Prim.Native.String.{◌++◌}
use adversarial_agent_runtim.Prelude.{
  ℕ, zero, suc, String, Bool, true, false, Option, none, some, List, [], ◌∷◌, ◌==◌, ltb, or_else,
  if◌then◌else◌,
}
use adversarial_agent_runtim.Json.{Json}
use adversarial_agent_runtim.Errors.{Result, ok, raise, raised, builtin, ◌>>=◌}
use adversarial_agent_runtim.Stateful.{Outcome}
use adversarial_agent_runtim.Database.Schema.{Event, RunState, Database}
use adversarial_agent_runtim.Database.EventLog.{get_events}
use adversarial_agent_runtim.Database.RunRows.{create_run, get_run, or_key_error}
use adversarial_agent_runtim.Memory.Window.{new_window}
use adversarial_agent_runtim.Memory.Manager.{MemoryManager, new_manager, add_user_message}
use adversarial_agent_runtim.Memory.Context.{from_events}
use adversarial_agent_runtim.Response.ToolCalls.{ToolCall}
use adversarial_agent_runtim.Runtime.Budget.{cost_so_far}
use adversarial_agent_runtim.Runtime.Pending.{tool_call_from_dict}
use adversarial_agent_runtim.Loop.State.{Runtime, Running, Round, next_round, returned}
use adversarial_agent_runtim.Loop.Turn.{as_fields}
use adversarial_agent_runtim.Loop.Iterate.{round, limit_reached}

-- What `run` finds: a run that is over, or one whose loop begins.
pub data Start (W C : Type 0) : Type 0 where
  over : RunState → Start W C
  begins : RunState → Running W C → Start W C

module _ {W C : Type 0} (runtime : Runtime W C) (run_id task : String) where
  -- What a round leads to, with the rounds that follow.
  unfoldable pub after_round :
      (Running W C → Option (Outcome (Option RunState) (Running W C)))
      → Outcome Round (Running W C)
      → Option (Outcome (Option RunState) (Running W C))
  after_round next (ok next_round, s) = next s
  after_round next (ok (returned state), s) = some (ok state, s)
  after_round next (raised e, s) = some (raised e, s)

  -- `while step < self.config.max_steps`, and what follows.
  unfoldable pub loop : ℕ → Running W C → Option (Outcome (Option RunState) (Running W C))
  loop zero s = none
  loop (suc fuel) s = elim (ltb s.step runtime.max_steps) [
    | true ↦ after_round (loop fuel) (round runtime run_id task s)
    | false ↦ after_round (loop fuel) (limit_reached runtime run_id task s)
  ]

  -- The conversation of a run: the one that the runtime was made with, a new one, or the one that the
  -- log tells.
  unfoldable pub conversation : Option MemoryManager → Bool → List Event → Result MemoryManager
  conversation (some memory) created events = ok memory
  conversation none true events =
      new_window runtime.token_budget >>= (λ window. ok (new_manager window))
  conversation none false events = from_events runtime.codec events runtime.token_budget

  -- The task of a run that was created just now is the first message.
  unfoldable pub with_task : Bool → MemoryManager → Result MemoryManager
  with_task true memory = let (r, added) = add_user_message task memory in r >>= (λ _. ok added)
  with_task false memory = ok memory

  unfoldable pub pending_calls : List Json → Result (List ToolCall)
  pending_calls [] = ok []
  pending_calls (item ∷ items) = as_fields item >>= (λ fields.
      tool_call_from_dict runtime.codec runtime.to_dict fields
      >>= (λ call. pending_calls items >>= (λ calls. ok (call ∷ calls))))

  -- The variables of the loop for a run that is not over.
  unfoldable pub begin :
      Option MemoryManager → Bool → RunState → Database → W → C → Result (Running W C)
  begin given created state db machine client =
      let events = get_events run_id db in
      conversation given created events >>= (λ found. with_task created found >>= (λ memory.
        pending_calls state.pending_tool_calls >>= (λ pending.
          cost_so_far runtime.codec runtime.convert runtime.limits events >>= (λ total_cost.
            ok (record {
              db = db;
              memory = memory;
              machine = machine;
              client = client;
              step = state.step_count;
              status = state.status;
              pending = pending;
              total_cost = total_cost;
            })))))

  -- `run` up to the loop; the run's row is created if there is none.
  unfoldable pub start : Option MemoryManager → Database → W → C → Outcome (Start W C) Database
  start given db machine client =
      let (created, db') = create_run run_id task db in
      elim (get_run run_id db') [
        | none ↦ (raise (builtin "KeyError") ("Unable to create run: " ++ run_id), db')
        | some state ↦
            if state.status == "FINISHED"
            then (ok (over state), db')
            else (begin given created state db' machine client >>= (λ s. ok (begins state s)), db')
      ]

  abbrev pub or_state :
      RunState
      → Option (Outcome (Option RunState) (Running W C))
      → Option (Result RunState × Database)
  or_state state none = none
  or_state state (some (ok found, s)) = some (ok (or_else found state), s.db)
  or_state state (some (raised e, s)) = some (raised e, s.db)

  unfoldable pub after_start :
      ℕ → Outcome (Start W C) Database → Option (Result RunState × Database)
  after_start fuel (raised e, db) = some (raised e, db)
  after_start fuel (ok (over state), db) = some (ok state, db)
  after_start fuel (ok (begins state s), db) = or_state state (loop fuel s)

  -- `run`, also the body of `run_task`.
  unfoldable pub run :
      ℕ → Option MemoryManager → Database → W → C → Option (Result RunState × Database)
  run fuel given db machine client = after_start fuel (start given db machine client)

module _ {W C : Type 0} (runtime : Runtime W C) (run_id : String) where
  -- `resume`.
  unfoldable pub resume :
      ℕ → Option MemoryManager → Database → W → C → Option (Result RunState × Database)
  resume fuel given db machine client = elim (or_key_error run_id (get_run run_id db)) [
    | raised e ↦ some (raised e, db)
    | ok state ↦ run runtime run_id state.task fuel given db machine client
  ]
