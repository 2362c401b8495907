-- ===== src/Tools/Host.antt =====
-- What the tools of agent/executer.py use of the machine, over its state `W`: the file system with
-- `pathlib`, child processes, `urlparse` and `urlopen`. A path is the list of its parts.
use adversarial_agent_runtim.Prelude.{String, Bool, true, false, ◌&&◌, Option, List, [], ◌∷◌, ◌==◌}
use adversarial_agent_runtim.Json.{ℤ}
use adversarial_agent_runtim.Errors.{Result}

-- `PythonResult`.
pub record PythonResult : Type 0 where
  pub stdout : String
  pub stderr : String
  pub returncode : ℤ

-- How `subprocess.run` ends. After a timeout the output captured so far is bytes, here their text,
-- or missing.
pub data ChildRun : Type 0 where
  completed : PythonResult → ChildRun
  timed_out : Option String → ChildRun

-- `root` is the resolved workspace root; `resolve path` is `(root / path).resolve()`; `write_text`
-- makes the parent folders first; `parse_url` gives the scheme and the host name.
pub record Host (W : Type 0) : Type 0 where
  pub root : List String
  pub allow_hosts : List String
  pub timeout_text : String
  pub resolve : String → W → Result (List String)
  pub read_text : List String → W → Result String
  pub write_text : List String → String → W → Result (Unit {0}) × W
  pub run_child : String → W → Result ChildRun × W
  pub parse_url : String → Result (String × Option String)
  pub fetch : String → W → Result String × W

-- `candidate.is_relative_to(root)`.
unfoldable pub is_relative_to : List String → List String → Bool
is_relative_to candidate [] = true
is_relative_to [] (part ∷ root) = false
is_relative_to (p ∷ candidate) (part ∷ root) = p == part && is_relative_to candidate root
