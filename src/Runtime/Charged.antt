-- ===== src/Runtime/Charged.antt =====
-- The cost budget of agent/runtime.py over repeated charges and restarts.
use adversarial_agent_runtim.Prelude.{
  ℕ, String, false, ◌≡◌, refl, ◌∙◌, ap, sym, none, some, List, ◌∷◌, [], ◌++◌, arith, inl, inr,
  Bool-cases, Option-cases, or_else, ◌+◌, ◌==◌, ◌&&◌,
}
use adversarial_agent_runtim.Json.{Json, ℤ, pos, int, get}
use adversarial_agent_runtim.Errors.{Result, ok, raised, bind_returns, ◌>>=◌}
use adversarial_agent_runtim.Codec.{Codec}
use adversarial_agent_runtim.Tokenizer.{count_tokens}
use adversarial_agent_runtim.Database.Schema.{Event, Database}
use adversarial_agent_runtim.Database.EventLog.{key_recorded, append_event, new_event, get_events}
use adversarial_agent_runtim.Runtime.Config.{RunLimits}
use adversarial_agent_runtim.Runtime.Log.{event_payload, int_of, step_is}
use adversarial_agent_runtim.Runtime.Budget.{
  above, add_nat, charge_key, charge_payload, within, charge_budget, cost_from, cost_so_far,
}
use adversarial_agent_runtim.Runtime.Appended.{get_events-append_event, first_payload-append_one}

within-above :
    (limits : RunLimits) (total n : ℤ)
    → within limits total ≡ ok n
    → above n limits.cost_budget_tokens ≡ false
within-above limits total n returned = elim (Bool-cases (above total limits.cost_budget_tokens)) [
  | inl over ↦ cc
  | inr under ↦ cc
]

-- The event of a charge, as the log holds it.
abbrev charge_event : String → ℕ → Json → Event
charge_event run_id step payload =
    new_event run_id "budget_charged" payload (some step) (some (charge_key run_id step))

-- The store after a charge that is not recorded yet.
abbrev charged_store : String → ℕ → Json → Database → Database
charged_store run_id step payload db =
    (append_event run_id "budget_charged" payload (some step) (some (charge_key run_id step)) db).1

get_events-charged :
    (run_id : String) (payload : Json) (step : ℕ) (db : Database)
    → key_recorded (charge_key run_id step) db.events ≡ false
    → get_events run_id (charged_store run_id step payload db)
      ≡ get_events run_id db ++ charge_event run_id step payload ∷ []
get_events-charged run_id payload step db new =
    get_events-append_event run_id "budget_charged" (charge_key run_id step) payload (some step) db
      new

event_payload-charged :
    (limits : RunLimits) (a b : ℕ) (total : ℤ) (run_id : String) (step : ℕ) (db : Database)
    → key_recorded (charge_key run_id step) db.events ≡ false
    → event_payload
        (get_events run_id (charged_store run_id step (charge_payload limits a b total) db))
        "budget_charged"
        step
      ≡ some (charge_payload limits a b total)
unfolding event_payload
event_payload-charged limits a b total run_id step db new =
    rw (get_events-charged run_id (charge_payload limits a b total) step db new) (
      first_payload-append_one
        (λ event. event.event_type == "budget_charged" && step_is step event.step)
        (get_events run_id db) (charge_event run_id step (charge_payload limits a b total))
      ∙ ground arith)

bind-bind {ℓ κ μ} :
    {A : Type ℓ} {B : Type κ} {C : Type μ} (r : Result A) (f : A → Result C) (g : A → Result B)
    (h : B → Result C)
    → ((a : A) → f a ≡ (g a >>= h))
    → (r >>= f) ≡ ((r >>= g) >>= h)
bind-bind (ok a) f g h same = same a
bind-bind (raised e) f g h same = refl

module _ (codec : Codec) (convert : Json → Result ℤ) (limits : RunLimits) where
  first_charge :
      (run_id : String) (token_count : ℕ) (raw : Json) (total : ℤ) (step : ℕ) (db : Database)
      → event_payload (get_events run_id db) "budget_charged" step ≡ none
      → let cost = count_tokens (codec.stable_json raw) in
        let next = add_nat total (token_count + cost) in
        charge_budget codec convert limits run_id token_count raw total step db ≡ (
          within limits next,
          charged_store run_id step (charge_payload limits token_count cost next) db,
        )
  unfolding charge_budget
  first_charge run_id token_count raw total step db uncharged = rw (uncharged, charge_budget)

  later_charge :
      (run_id : String) (token_count : ℕ) (raw : Json) (total : ℤ) (step : ℕ) (db : Database)
      (existing : Json)
      → event_payload (get_events run_id db) "budget_charged" step ≡ some existing
      → charge_budget codec convert limits run_id token_count raw total step db
        ≡ (int_of convert (or_else (get "total_cost" existing) (int total)) >>= within limits, db)
  unfolding charge_budget
  later_charge run_id token_count raw total step db existing charged = rw (charged, charge_budget)

  -- A step that has no charge in the log, and whose key is not recorded, is charged once: whatever the run asks to charge for that step
  -- afterwards, as it does after a crash, changes nothing in the store and has the outcome of the
  -- first charge, the BudgetExceededError included.
  pub charge_budget-once :
      (run_id : String) (token_count later_count : ℕ) (raw later_raw : Json) (total later_total : ℤ)
      (step : ℕ) (db : Database)
      → event_payload (get_events run_id db) "budget_charged" step ≡ none
      → key_recorded (charge_key run_id step) db.events ≡ false
      → let first = charge_budget codec convert limits run_id token_count raw total step db in
        charge_budget codec convert limits run_id later_count later_raw later_total step first.1
        ≡ first
  charge_budget-once run_id token_count later_count raw later_raw total later_total step db
        uncharged new =
      rw (first_charge run_id token_count raw total step db uncharged) (
        later_charge run_id later_count later_raw later_total step _ _ (
          event_payload-charged limits token_count (count_tokens (codec.stable_json raw))
            (add_nat total (token_count + count_tokens (codec.stable_json raw))) run_id step db
            new))

  -- A charge that returns a total is within the budget, for a recorded charge as well.
  pub charge_budget-within :
      (run_id : String) (token_count : ℕ) (raw : Json) (total n : ℤ) (step : ℕ) (db : Database)
      → (charge_budget codec convert limits run_id token_count raw total step db).0 ≡ ok n
      → above n limits.cost_budget_tokens ≡ false
  charge_budget-within run_id token_count raw total n step db returned =
      elim (Option-cases (event_payload (get_events run_id db) "budget_charged" step)) [
        | inl uncharged ↦ within-above limits _ n (
            sym (ap (λ p. p.0) (first_charge run_id token_count raw total step db uncharged))
            ∙ returned)
        | inr (existing, charged) ↦
            let (total', _, bounded) =
              bind_returns (int_of convert (or_else (get "total_cost" existing) (int total)))
                (within limits) n
                (sym (
                    ap (λ p. p.0)
                      (later_charge run_id token_count raw total step db existing charged))
                  ∙ returned) in
            within-above limits total' n bounded
      ]

  cost_from-append_one :
      (total : ℤ) (events : List Event) (event : Event)
      → cost_from codec convert limits total (events ++ event ∷ []) ≡ (
          cost_from codec convert limits total events
          >>= (λ next. cost_from codec convert limits next (event ∷ [])))
  unfolding cost_from
  cost_from-append_one total [] event = refl
  cost_from-append_one total (e ∷ events) event =
      elim (Bool-cases (e.event_type == "budget_charged")) [
        | inl charge ↦
            rw (charge, cost_from)
              (bind-bind (int_of convert (or_else (get "total_cost" e.payload) (int total))) _ _ _
                (λ next. cost_from-append_one next events event))
        | inr other ↦ rw (other, cost_from) (cost_from-append_one total events event)
      ]

  charge_read :
      (total : ℤ) (a b : ℕ) (next : ℤ) (run_id : String) (step : ℕ)
      → cost_from codec convert limits total
          (charge_event run_id step (charge_payload limits a b next) ∷ [])
        ≡ ok next
  unfolding cost_from
  charge_read total a b next run_id step = refl

  -- When a step without a charge in the log, whose key is not recorded, is charged on top of the
  -- total that the log shows, a process that starts again reads from the log the new total.
  pub cost_so_far-charge_budget :
      (run_id : String) (token_count : ℕ) (raw : Json) (total : ℤ) (step : ℕ) (db : Database)
      → event_payload (get_events run_id db) "budget_charged" step ≡ none
      → key_recorded (charge_key run_id step) db.events ≡ false
      → cost_so_far codec convert limits (get_events run_id db) ≡ ok total
      → let charged = (charge_budget codec convert limits run_id token_count raw total step db).1 in
        cost_so_far codec convert limits (get_events run_id charged)
        ≡ ok (add_nat total (token_count + count_tokens (codec.stable_json raw)))
  unfolding cost_so_far
  cost_so_far-charge_budget run_id token_count raw total step db uncharged new before =
      let cost = count_tokens (codec.stable_json raw) in
      let next = add_nat total (token_count + cost) in
      let payload = charge_payload limits token_count cost next in
      rw
        (
          first_charge run_id token_count raw total step db uncharged,
          get_events-charged run_id payload step db new,
          cost_from-append_one (pos 0) (get_events run_id db) (charge_event run_id step payload),
          before,
        )
        (charge_read total token_count cost next run_id step)
