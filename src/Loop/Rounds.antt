-- ===== src/Loop/Rounds.antt =====
-- Induction over the rounds of `AgentRuntime.run`, agent/runtime.py.
use mathlib.Core.Path.{subst}
use adversarial_agent_runtim.Prelude.{
  ℕ, zero, suc, String, ◌≡◌, sym, refl, ◌∙◌, true, false, Option, none, some, ltb, inl, inr,
  Bool-cases,
}
use adversarial_agent_runtim.Errors.{Result, ok, raised}
use adversarial_agent_runtim.Stateful.{Outcome}
use adversarial_agent_runtim.Database.Schema.{RunState}
use adversarial_agent_runtim.Loop.State.{Runtime, Running, Round, next_round, returned}
use adversarial_agent_runtim.Loop.Iterate.{round, limit_reached}
use adversarial_agent_runtim.Loop.Run.{after_round, loop}

module _ {W C : Type 0} (runtime : Runtime W C) (run_id task : String) where
  module _ {ℓ} (P : Running W C → Type ℓ)
      (Q : Result (Option RunState) → Running W C → Type ℓ) where
    -- The next round begins with P, and an end of the loop has Q.
    abbrev pub LeadsTo : Outcome Round (Running W C) → Type ℓ
    LeadsTo (ok next_round, s) = P s
    LeadsTo (ok (returned state), s) = Q (ok state) s
    LeadsTo (raised e, s) = Q (raised e) s

    ends :
        (r r' : Result (Option RunState)) (s s' : Running W C)
        → Path (Option (Outcome (Option RunState) (Running W C))) (some (r, s)) (some (r', s'))
        → Q r s
        → Q r' s'
    ends r r' s s' e q = subst holds e q
      where
        holds : Option (Outcome (Option RunState) (Running W C)) → Type ℓ
        holds none = Q r s
        holds (some (r, s)) = Q r s

    after_round-leads :
        (next : Running W C → Option (Outcome (Option RunState) (Running W C)))
        (outcome : Outcome Round (Running W C)) (r : Result (Option RunState)) (s' : Running W C)
        → ((s : Running W C) → P s → next s ≡ some (r, s') → Q r s')
        → LeadsTo outcome
        → after_round runtime run_id task next outcome ≡ some (r, s')
        → Q r s'
    unfolding after_round
    after_round-leads next (ok next_round, s) r s' later h e = later s h e
    after_round-leads next (ok (returned state), s) r s' later h e = ends (ok state) r s s' e h
    after_round-leads next (raised error, s) r s' later h e = ends (raised error) r s s' e h

    pub loop-leads :
        ((s : Running W C)
          → ltb s.step runtime.max_steps ≡ true
          → P s
          → LeadsTo (round runtime run_id task s))
        → ((s : Running W C)
            → ltb s.step runtime.max_steps ≡ false
            → P s
            → LeadsTo (limit_reached runtime run_id task s))
        → (fuel : ℕ) (s s' : Running W C) (r : Result (Option RunState)) → P s
        → loop runtime run_id task fuel s ≡ some (r, s')
        → Q r s'
    unfolding loop
    loop-leads goes_on stops zero s s' r h ended = cc
    loop-leads goes_on stops (suc fuel) s s' r h ended =
        elim (Bool-cases (ltb s.step runtime.max_steps)) [
          | inl more ↦
              after_round-leads (loop runtime run_id task fuel) (round runtime run_id task s) r s'
                (λ s h e. loop-leads goes_on stops fuel s s' r h e) (goes_on s more h)
                (sym (rw (more, loop) refl) ∙ ended)
          | inr last ↦
              after_round-leads (loop runtime run_id task fuel)
                (limit_reached runtime run_id task s) r s'
                (λ s h e. loop-leads goes_on stops fuel s s' r h e) (stops s last h)
                (sym (rw (last, loop) refl) ∙ ended)
        ]
