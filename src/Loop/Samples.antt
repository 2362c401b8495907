-- ===== src/Loop/Samples.antt =====
-- Small runs to test the loop of agent/runtime.py with.
use adversarial_agent_runtim.Prelude.{ℕ, String, false, none, some, List, [], ◌∷◌}
use adversarial_agent_runtim.Json.{Json, Fields, str, bool, object, fields, null}
use adversarial_agent_runtim.Errors.{ok, Error, raised, raise, builtin, network_failure_error}
use adversarial_agent_runtim.Database.Schema.{RunState, Event, Database, empty_database}
use adversarial_agent_runtim.Database.RunRows.{started}
use adversarial_agent_runtim.Runtime.Pending.{parsed_payload}
use adversarial_agent_runtim.Batch.Samples.{naming_codec, bare_disk, mail, mail_row, quiet_memory}
use adversarial_agent_runtim.Batch.Execute.{started_payload}
use adversarial_agent_runtim.Loop.State.{Runtime, Running}

abbrev pub unreachable : Error
unreachable = record { class = network_failure_error; message = "mock server failed" }

-- A runtime whose model cannot be reached.
abbrev pub runtime : Runtime (List String) (Unit {0})
runtime = record {
  max_steps = 50;
  token_budget = 1000;
  limits = record { cost_budget_tokens = 50000; no_progress_limit = 3 };
  caller = record { call_model = λ payload c. (raised unreachable, c) };
  disk = bare_disk;
  codec = naming_codec;
  loads = λ s. ok none;
  convert = λ v. raise (builtin "TypeError") "int() argument";
  to_dict = λ v. raise (builtin "TypeError") "cannot convert";
  path_name = λ s. s;
  now = λ step index. "1.0";
}

abbrev pub known_run : Database
known_run = record empty_database { runs = started "r" "send it" ∷ [] }

abbrev pub first_round : Running (List String) (Unit {0})
first_round = record {
  db = known_run;
  memory = quiet_memory;
  machine = [];
  client = tt;
  step = 0;
  status = "STARTED";
  pending = [];
  total_cost = adversarial_agent_runtim.Json.pos 0;
}

-- The row of the run when the call of the model fails.
abbrev pub row_left : RunState
row_left = record (started "r" "send it") { status = "CALLING_LLM"; step_count = 1 }

-- A write failed at step 1, and the model claims that all went well.
abbrev pub failed_log : List Event
failed_log =
    record {
      run_id = "r";
      event_type = "tool_result";
      payload = object (("tool_name", str "write_file") ∷ ("ok", bool false) ∷ []);
      step = some 1;
      idempotency_key = none;
    }
    ∷ []

abbrev pub event_at : String → Json → ℕ → String → Event
event_at event_type payload step key = record {
  run_id = "r";
  event_type = event_type;
  payload = payload;
  step = some step;
  idempotency_key = some key;
}

-- The email was sent at step 1, and at step 2 the model asks for the same email.
abbrev pub stuck_db : Database
stuck_db = record known_run {
  events =
      record {
        id = 1;
        event =
            event_at "tool_result"
              (object (("tool_call_id", str "c3") ∷ ("idempotency_key", str "send_email") ∷ [])) 1
              "result:send_email";
      }
      ∷ record {
        id = 2;
        event = event_at "tool_calls_parsed" (parsed_payload (mail ∷ [])) 2 "r:tool_calls_parsed:2";
      }
      ∷ record {
        id = 3;
        event =
            event_at "tool_execution_started" (started_payload mail) 2
              "r:tool_execution_started:2:0:send_email";
      }
      ∷ [];
  last_event_id = 3;
  tool_executions = mail_row ∷ [];
}

abbrev pub stuck_state : Running (List String) (Unit {0})
stuck_state = record first_round { db = stuck_db; step = 2; status = "CALLING_LLM" }
