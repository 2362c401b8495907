-- ===== src/Loop/Bounded.antt =====
-- The step counter of `AgentRuntime.run`, agent/runtime.py.
use adversarial_agent_runtim.Prelude.{String, ◌≡◌, true, ltb}
use adversarial_agent_runtim.Errors.{ok}
use adversarial_agent_runtim.Loop.State.{Runtime, Running, next_round}
use adversarial_agent_runtim.Loop.Iterate.{round}

module _ {W C : Type 0} (runtime : Runtime W C) (run_id task : String) where
  -- The states with which the rounds of a loop begin, from a first one on.
  pub data Reaches (s : Running W C) : Running W C → Type 0 where
    here : Reaches s s
    next :
        {s1 s2 : Running W C}
        → Reaches s s1
        → ltb s1.step runtime.max_steps ≡ true
        → round runtime run_id task s1 ≡ (ok next_round, s2)
        → Reaches s s2
