-- ===== src/Tools/Tests.antt =====
-- The theorems on tools at a small machine: a list of written files.
use adversarial_agent_runtim.Prelude.{
  String, ◌≡◌, refl, true, false, some, List, [], ◌∷◌, ◌==◌, if◌then◌else◌,
}
use adversarial_agent_runtim.Json.{fields, str, pos, null}
use adversarial_agent_runtim.Errors.{ok, raise, builtin}
use adversarial_agent_runtim.Database.Schema.{empty_database}
use adversarial_agent_runtim.Response.ToolCalls.{ToolCall}
use adversarial_agent_runtim.Tools.Host.{Host, completed, is_relative_to}
use adversarial_agent_runtim.Tools.Executor.{execute}
use adversarial_agent_runtim.Tools.Confined.{IsAllowed, execute-Allowed}
use adversarial_agent_runtim.Database.SideEffects.{get_tool_execution}
use adversarial_agent_runtim.Tools.Recorded.{reported_to, execute-once}

-- Two paths are known: one in the workspace, and one that leaves it.
abbrev machine : Host (List (List String × String))
machine = record {
  root = "home" ∷ "workspace" ∷ [];
  allow_hosts = "localhost" ∷ [];
  timeout_text = "timeout after 5s";
  resolve = λ path w.
      if path == "notes.txt"
      then ok ("home" ∷ "workspace" ∷ "notes.txt" ∷ [])
      else ok ("etc" ∷ "passwd" ∷ []);
  read_text = λ p w. raise (builtin "FileNotFoundError") "no such file";
  write_text = λ p content w. (ok tt, (p, content) ∷ w);
  run_child =
      λ code w. (ok (completed (record { stdout = ""; stderr = ""; returncode = pos 0 })), w);
  parse_url = λ url. ok ("http", some "localhost");
  fetch = λ url w. (ok "page", w);
}

abbrev write_notes : ToolCall
write_notes = record {
  id = "c1";
  name = "write_file";
  arguments = fields (("path", str "notes.txt") ∷ ("content", str "hello") ∷ []);
  raw_arguments = null;
}

abbrev write_again : ToolCall
write_again = record write_notes { id = "c2" }

execute-once_example :
    let (r, db', w') = execute machine "r" "1.0" write_notes "k" empty_database [] in
    let later = record db' { last_event_id = 7 } in
    execute machine "r" "2.0" write_again "k" later w' ≡ (reported_to write_again r, later, w')
unfolding get_tool_execution
execute-once_example =
    let (r, db', w') = execute machine "r" "1.0" write_notes "k" empty_database [] in
    execute-once machine "r" "1.0" "2.0" write_notes write_again "k" empty_database
      (record db' { last_event_id = 7 }) [] w' refl

execute-Allowed_example :
    IsAllowed machine [] (execute machine "r" "1.0" write_notes "k" empty_database []).2
execute-Allowed_example = execute-Allowed machine "r" "1.0" write_notes "k" empty_database []

is_relative_to_runs :
    (is_relative_to ("home" ∷ "workspace" ∷ "notes.txt" ∷ []) machine.root ≡ true)
    × (is_relative_to ("etc" ∷ "passwd" ∷ []) machine.root ≡ false)
unfolding is_relative_to
is_relative_to_runs = (refl, refl)
