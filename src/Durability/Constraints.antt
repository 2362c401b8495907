-- ===== src/Durability/Constraints.antt =====
-- The constraints that the schema of agent/run.py declares, and the insert of an event.
use adversarial_agent_runtim.Prelude.{
  ℕ, suc, ◌≤◌, ◌<◌, String, ◌≡◌, refl, false, ◌||◌, Option, none, some, List, [], ◌∷◌, ◌++◌, arith,
  eq_iff, ◌⊎◌, inl, inr, Bool-cases,
}
use adversarial_agent_runtim.Table.{IsUnique}
use adversarial_agent_runtim.Database.Schema.{
  Event, EventRow, Database, run_key, execution_key, email_key, state_key,
}
use adversarial_agent_runtim.Database.EventLog.{
  has_key, skip_id, key_recorded, insert_event_row, insert_keyed, insert_event,
}

-- The ids ascend, from above `low` up to `high`.
abbrev pub Ascending : ℕ → List EventRow → ℕ → Type 0
Ascending low [] high = low ≤ high
Ascending low (row ∷ rows) high = (low < row.id) × Ascending row.id rows high

abbrev pub Fresh : Option String → List EventRow → Type 0
Fresh none rows = Unit
Fresh (some k) rows = key_recorded k rows ≡ false

-- UNIQUE on `events.idempotency_key`, which does not compare NULLs.
abbrev pub HasDistinctKeys : List EventRow → Type 0
HasDistinctKeys [] = Unit
HasDistinctKeys (row ∷ rows) = Fresh row.event.idempotency_key rows × HasDistinctKeys rows

pub record IsValid (db : Database) : Type 0 where
  pub runs : IsUnique run_key db.runs
  pub ids : Ascending 0 db.events db.last_event_id
  pub event_keys : HasDistinctKeys db.events
  pub executions : IsUnique execution_key db.tool_executions
  pub emails : IsUnique email_key db.sent_emails
  pub states : IsUnique state_key db.run_states

append_one-Ascending :
    (low high : ℕ) (e : Event) (rows : List EventRow)
    → Ascending low rows high
    → Ascending low (rows ++ record { id = suc high; event = e } ∷ []) (suc high)
append_one-Ascending low high e [] h = omega arith
append_one-Ascending low high e (row ∷ rows) h = (h.0, append_one-Ascending row.id high e rows h.1)

pub key_recorded-append :
    (k : String) (rows more : List EventRow)
    → key_recorded k (rows ++ more) ≡ (key_recorded k rows || key_recorded k more)
unfolding key_recorded
key_recorded-append k [] more = refl
key_recorded-append k (row ∷ rows) more = ground (arith, key_recorded-append k rows more)

abbrev Apart : Option String → Option String → Type 0
Apart none b = Unit
Apart (some k) b = has_key k b ≡ false

Fresh-append_one :
    (key : Option String) (row : EventRow) (rows : List EventRow)
    → Fresh key rows
    → Apart key row.event.idempotency_key
    → Fresh key (rows ++ row ∷ [])
unfolding key_recorded
Fresh-append_one none row rows h new = tt
Fresh-append_one (some k) row rows h new = ground (arith, key_recorded-append k rows (row ∷ []))

Apart-symm : (a b : Option String) → Apart a b → Apart b a
Apart-symm none none h = tt
Apart-symm none (some k) h = refl
Apart-symm (some j) none h = tt
Apart-symm (some j) (some k) h = ground (arith, eq_iff j k, eq_iff k j)

-- A key that is nowhere in the log is not the key of its first row, and nowhere behind it.
Fresh-tail :
    (key : Option String) (row : EventRow) (rows : List EventRow)
    → Fresh key (row ∷ rows)
    → Fresh key rows × Apart key row.event.idempotency_key
unfolding key_recorded
Fresh-tail none row rows h = (tt, tt)
Fresh-tail (some k) row rows h = ground arith

append_one-HasDistinctKeys :
    (row : EventRow) (rows : List EventRow)
    → Fresh row.event.idempotency_key rows
    → HasDistinctKeys rows
    → HasDistinctKeys (rows ++ row ∷ [])
append_one-HasDistinctKeys row [] new h = (new, tt)
append_one-HasDistinctKeys row (x ∷ rows) new h =
    let (later, apart) = Fresh-tail row.event.idempotency_key x rows new in
    (
      Fresh-append_one x.event.idempotency_key row rows h.0
          (Apart-symm row.event.idempotency_key x.event.idempotency_key apart),
      append_one-HasDistinctKeys row rows later h.1,
    )

pub insert_event_row-IsValid :
    (e : Event) (db : Database)
    → Fresh e.idempotency_key db.events
    → IsValid db
    → IsValid (insert_event_row e db).1
unfolding insert_event_row
insert_event_row-IsValid e db new v = record {
  runs = v.runs;
  ids = append_one-Ascending 0 db.last_event_id e db.events v.ids;
  event_keys =
      append_one-HasDistinctKeys (record { id = suc db.last_event_id; event = e }) db.events new
        v.event_keys;
  executions = v.executions;
  emails = v.emails;
  states = v.states;
}

widen-Ascending :
    (low high : ℕ) (rows : List EventRow) → Ascending low rows high → Ascending low rows (suc high)
widen-Ascending low high [] h = omega arith
widen-Ascending low high (row ∷ rows) h = (h.0, widen-Ascending row.id high rows h.1)

skip_id-IsValid : (db : Database) → IsValid db → IsValid (skip_id db)
skip_id-IsValid db v = record {
  runs = v.runs;
  ids = widen-Ascending 0 db.last_event_id db.events v.ids;
  event_keys = v.event_keys;
  executions = v.executions;
  emails = v.emails;
  states = v.states;
}

insert_keyed_cases :
    (key : Option String) (e : Event) (db : Database)
    → (insert_keyed key e db ≡ (none, skip_id db))
      ⊎ ((insert_keyed key e db ≡ insert_event_row e db) × Fresh key db.events)
unfolding insert_keyed
insert_keyed_cases none e db = inr (refl, tt)
insert_keyed_cases (some k) e db = elim (Bool-cases (key_recorded k db.events)) [
  | inl old ↦ inl (rw old)
  | inr new ↦ inr (rw new, new)
]

-- An event is inserted under a key that is new, or only the sequence of ids moves.
pub insert_event_cases :
    (e : Event) (db : Database)
    → (insert_event e db ≡ (none, skip_id db))
      ⊎ ((insert_event e db ≡ insert_event_row e db) × Fresh e.idempotency_key db.events)
unfolding insert_event
insert_event_cases e db = insert_keyed_cases e.idempotency_key e db

pub insert_event-IsValid : (e : Event) (db : Database) → IsValid db → IsValid (insert_event e db).1
insert_event-IsValid e db v = elim (insert_event_cases e db) [
  | inl same ↦ rw same (skip_id-IsValid db v)
  | inr (new_row, new) ↦ rw new_row (insert_event_row-IsValid e db new v)
]
