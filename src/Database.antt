-- ===== src/Database.antt =====
-- agent/run.py, `AgentDatabase`: the five tables of the durable store and every method on them.
-- A method returns the database that its transaction leaves. The columns created_at and
-- updated_at are kept only for sent emails, the one place where a caller reads them. Payloads are
-- kept as values: what `json.loads` makes of what `stable_json` wrote. SQLite's own failures (a
-- locked or full disk) are not modelled.
pub mod Schema
pub mod EventLog
pub mod RunRows
pub mod SideEffects
