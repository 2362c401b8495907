-- ===== src/Loop/Finished.antt =====
-- The result of `AgentRuntime.run` and of `resume`, agent/runtime.py.
use adversarial_agent_runtim.Prelude.{
  ℕ, String, ◌≡◌, refl, true, false, Option, none, some, ◌==◌, eq_iff, inl, inr, Bool-cases,
  Option-cases,
}
use adversarial_agent_runtim.Errors.{Result, ok, raised, ◌>>=◌}
use adversarial_agent_runtim.Stateful.{Outcome}
use adversarial_agent_runtim.Database.Schema.{RunState, Database}
use adversarial_agent_runtim.Database.RunRows.{get_run, create_run}
use adversarial_agent_runtim.Memory.Manager.{MemoryManager}
use adversarial_agent_runtim.Loop.State.{Runtime, Running}
use adversarial_agent_runtim.Loop.Run.{
  loop, Start, over, begins, begin, start, or_state, after_start, run,
}
use adversarial_agent_runtim.Loop.Ends.{Ended, loop-Ended}

module _ {W C : Type 0} (runtime : Runtime W C) (run_id task : String) where
  -- The store has the state as the row of the run, and the run is over.
  abbrev pub HasFinished : Option (Result RunState × Database) → Type 0
  HasFinished (some (ok state, db)) = (get_run run_id db ≡ some state) × (state.status ≡ "FINISHED")
  HasFinished other = Unit

  -- A start that finds the run over.
  FoundOver : Outcome (Start W C) Database → Type 0
  FoundOver (ok (over state), db) = (get_run run_id db ≡ some state) × (state.status ≡ "FINISHED")
  FoundOver other = Unit

  from_loop :
      (state : RunState) (o : Option (Outcome (Option RunState) (Running W C)))
      → ((r : Result (Option RunState)) (s : Running W C)
          → o ≡ some (r, s)
          → Ended runtime run_id task r s)
      → HasFinished (or_state runtime run_id task state o)
  from_loop state none h = tt
  from_loop state (some (ok (some found), s)) h =
      let (here, finished, _) = h _ _ refl in (here, finished)
  from_loop state (some (ok none, s)) h = clash (h _ _ refl)
    where
      clash : false ≡ true → HasFinished (some (ok state, s.db))
      clash e = cc
  from_loop state (some (raised e, s)) h = tt

  begun-FoundOver :
      (state : RunState) (db : Database) (r : Result (Running W C))
      → FoundOver (r >>= (λ s. ok (begins state s)), db)
  unfolding FoundOver
  begun-FoundOver state db (ok s) = tt
  begun-FoundOver state db (raised e) = tt

  start-FoundOver :
      (given : Option MemoryManager) (db : Database) (w : W) (c : C)
      → FoundOver (start runtime run_id task given db w c)
  unfolding start FoundOver
  start-FoundOver given db w c =
      let (created, db') = create_run run_id task db in
      elim (Option-cases (get_run run_id db')) [
        | inl missing ↦ rw (missing, start) tt
        | inr (state, found) ↦ elim (Bool-cases (state.status == "FINISHED")) [
          | inl done ↦ rw (found, start, done) (found, (eq_iff state.status "FINISHED").0 done)
          | inr open' ↦
              rw (found, start, open')
                (begun-FoundOver state db' (begin runtime run_id task given created state db' w c))
        ]
      ]

  from_start :
      (fuel : ℕ) (outcome : Outcome (Start W C) Database)
      → FoundOver outcome
      → HasFinished (after_start runtime run_id task fuel outcome)
  unfolding FoundOver after_start
  from_start fuel (raised e, db) h = tt
  from_start fuel (ok (over state), db) h = h
  from_start fuel (ok (begins state s), db) h =
      from_loop state (loop runtime run_id task fuel s)
        (λ r s' ended. loop-Ended runtime run_id task fuel s s' r ended)

  -- Whenever `run` returns a state, on a new run or on one that was interrupted anywhere, that state
  -- is the row that the store then has for the run, and its status is FINISHED.
  pub run-HasFinished :
      (fuel : ℕ) (given : Option MemoryManager) (db : Database) (machine : W) (client : C)
      → HasFinished (run runtime run_id task fuel given db machine client)
  unfolding run
  run-HasFinished fuel given db machine client =
      from_start fuel (start runtime run_id task given db machine client)
        (start-FoundOver given db machine client)
