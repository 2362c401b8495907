-- ===== src/Batch/Samples.antt =====
-- A small machine, three calls and a store, for the tests of batches and of the loop.
use adversarial_agent_runtim.Prelude.{String, true, false, Option, none, some, List, [], ◌∷◌}
use adversarial_agent_runtim.Json.{Json, null, str, get, fields, object}
use adversarial_agent_runtim.Errors.{ok, raise, builtin}
use adversarial_agent_runtim.Codec.{Codec}
use adversarial_agent_runtim.Database.Schema.{ToolExecution, empty_database}
use adversarial_agent_runtim.Memory.Manager.{MemoryManager, new_manager}
use adversarial_agent_runtim.Response.ToolCalls.{ToolCall}
use adversarial_agent_runtim.Tools.Host.{Host, timed_out}
use adversarial_agent_runtim.Batch.State.{Disk}
use adversarial_agent_runtim.Batch.Execute.{Process}

abbrev text_of : Option Json → String
text_of (some (str s)) = s
text_of other = ""

-- Digests that tell the key material by the name of the tool.
abbrev pub naming_codec : Codec
naming_codec = record {
  stable_json = λ v. elim (get "tool_call" v) [
    | some call ↦ text_of (get "name" call)
    | none ↦ text_of (get "tool_name" v)
  ];
  sha256 = λ s. s;
  lower = λ s. s;
  repr = λ v. "value";
}

-- A machine whose state is the list of the files written, and on which nothing can be read.
abbrev pub bare_host : Host (List String)
bare_host = record {
  root = [];
  allow_hosts = [];
  timeout_text = "timeout after 5s";
  resolve = λ path w. ok (path ∷ []);
  read_text = λ p w. raise (builtin "FileNotFoundError") "no such file";
  write_text = λ p content w. (ok tt, content ∷ w);
  run_child = λ code w. (ok (timed_out none), w);
  parse_url = λ url. ok ("", none);
  fetch = λ url w. (ok "page", w);
}

abbrev pub bare_disk : Disk (List String)
bare_disk = record {
  host = bare_host;
  exists = λ p w. ok false;
  is_file = λ p w. ok false;
  read_bytes = λ p w. ok "";
  unlink = λ p w. (ok tt, w);
  make_parent = λ p w. (ok tt, w);
  write_bytes = λ p content w. (ok tt, w);
  is_os_error = λ e. true;
  finish_order = λ items. items;
}

abbrev pub read_missing : ToolCall
read_missing = record {
  id = "c1";
  name = "read_file";
  arguments = fields (("path", str "missing.txt") ∷ []);
  raw_arguments = null;
}

abbrev pub write_notes : ToolCall
write_notes = record {
  id = "c2";
  name = "write_file";
  arguments = fields (("path", str "notes.txt") ∷ ("content", str "hello") ∷ []);
  raw_arguments = null;
}

abbrev pub mail : ToolCall
mail = record {
  id = "c3";
  name = "send_email";
  arguments = fields (("to", str "a") ∷ ("subject", str "b") ∷ ("body", str "c") ∷ []);
  raw_arguments = null;
}

abbrev pub quiet_memory : MemoryManager
quiet_memory = new_manager (record { token_budget = 1000; messages = [] })

abbrev pub fresh_process : Process (List String)
fresh_process = record { db = empty_database; memory = quiet_memory; machine = [] }

-- The row of the email that was sent.
abbrev pub mail_row : ToolExecution
mail_row = record {
  idempotency_key = "send_email";
  run_id = "r";
  tool_call_id = "c3";
  tool_name = "send_email";
  arguments = object [];
  result = none;
  error = none;
  status = "completed";
}
