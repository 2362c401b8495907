-- ===== src/Lib.antt =====
-- A model of adversarial_agent_runtime, an agent loop that survives crashes, and the theorems
-- that make it correct. A run sends a conversation to a model, executes the tool calls of the
-- reply, and records each step in a SQLite database, from which a killed run goes on.
--
-- The parts, and the files that model them:
-- - agent/exceptions.py: Errors. A method that may raise returns a `Result`; where it has
--   changed an object before it raises, the object stands beside the result.
-- - agent/run.py, `AgentDatabase`: Table has the SQL statements on one table; Database/Schema
--   the rows; Database/EventLog the methods on `events` (`append_event`, `get_events`,
--   `save_event`, ...); Database/RunRows those on `runs` and `run_states` (`create_run`,
--   `update_run`, `update_run_and_append_event`, `finish_run`, ...); Database/SideEffects those
--   on `tool_executions` and `sent_emails` (`record_tool_execution`, `send_email_tool_once`,
--   ...). Durability has histories of these operations, by any processes in any order:
--   `perform_all`. Each method is one transaction, so a crash falls between two operations of a
--   history.
-- - mockllm/tokenizer.py: Tokenizer.
-- - agent/message.py: Memory/Message, Memory/Window (`MemoryWindow`: compaction to a token
--   budget), Memory/Manager and Memory/Context (`MemoryManager`: facts, the context for the
--   model, and `from_events`, which rebuilds the memory from the log).
-- - agent/response.py: Response/Source finds the raw tool calls of a reply, Response/ToolCalls
--   parses them, Response/Repair is the repair of trailing commas, Response/Reply is
--   `parse_agent_response`.
-- - agent/validate.py: Client has `CircuitBreaker` and `LLMClient`, Validator has
--   `AgentValidator` over an interface `LlmCaller`, which Client fills.
-- - agent/runtime.py: Runtime/Keys has the idempotency keys, Runtime/Log the reads of the event
--   log, Runtime/Budget `_charge_budget` and `_cost_so_far`, Runtime/Progress `_check_progress`
--   and `_raise_if_recorded_no_progress`, Runtime/Pending `_recover_pending_tool_calls`,
--   Runtime/RunOne `run_one` of `_execute_tool_calls`.
-- - agent/runtime.py, `load_runtime_config`: Runtime/Config/Values has the values and the dicts,
--   Runtime/Config/Coerce `_coerce_runtime_config_values`, Runtime/Config/Load `RuntimeConfig`
--   with its `__post_init__`, and the overrides.
-- - agent/runtime.py, `_execute_tool_calls`: Batch/Phases has the calls without side effects,
--   the writes and the emails, Batch/Preimages the capture and the rollback of files,
--   Batch/Execute the start events, the calls that are held already, and the report of the
--   results.
-- - agent/runtime.py, `run` and `resume`: Loop/Iterate has one round of the loop, Loop/Run the
--   loop and its start, Loop/Contradiction and Loop/Targets `_model_contradiction` with its
--   helpers. Loop/State has the variables of the loop: a round maps them to the next round, or
--   to the end of the run.
-- - agent/run.py, `TraceWriter`, `TraceReader` and `Replayer`: Trace has the text of a trace
--   file, and Trace/Format the line that a replay shows for an event.
-- - Stateful has code that changes a state and may raise, as a result beside the state it has
--   reached.
-- - agent/executer.py: Tools/Handlers has the tools with their checks and the dispatch to them,
--   Tools/Executor `ToolExecutor`; Tools/Host is the machine that they use.
-- - Json has the values that the program exchanges, Text the methods of `str`, Prelude the
--   shared names.
--
-- Parameters stand for what is not in the repository: `stable_json`, SHA-256, `str` of a value
-- that is no text and `str.lower` beyond ASCII (Codec), `json.loads` with the errors it raises,
-- `int` of a value that is no integer, `dict` of a value that is none, `Path(text).name`,
-- `str(Path(text))`, `float` of an int, the order in which a set is iterated over, and for one
-- call of the client its exchanges with the server, the clock, the random draws, `float` of a
-- header and the sleeper. The machine (Host) stands for files, child processes, `urlparse` and
-- `urlopen`.
--
-- Fuel: the dropping loop of the memory has as much as it has messages, since each round deletes
-- one; `get_compacted_context` has one round more than selected facts, since each failed round
-- drops one. The retry loop counts its attempts. The loop of a run has fuel for its rounds and
-- is `none` without any left; how many are enough depends on the model and on the crashes, so
-- the theorems on it hold for any fuel.
--
-- Not modelled: time stamps that nothing reads, the calls of the tracer by the other parts, the
-- interleaving of the transactions of concurrent calls (each call of the thread pool is one
-- step, in any order), the reading of the configuration file, the mock server, the chaos
-- harness, the command line and the tests.
pub mod Prelude
pub mod Json
pub mod Errors
pub mod Stateful
pub mod Table
pub mod Database
pub mod Durability
pub mod Text
pub mod Tokenizer
pub mod Codec
pub mod Memory
pub mod Client
pub mod Response
pub mod Runtime
pub mod Tools
pub mod Validator
pub mod Batch
pub mod Loop
pub mod Trace
