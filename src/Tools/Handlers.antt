-- ===== src/Tools/Handlers.antt =====
-- agent/executer.py: the tools without `send_email`, and the registry's dispatch to them.
use Prim.Native.String.{◌++◌}
use adversarial_agent_runtim.Prelude.{
  String, ◌||◌, Option, none, some, List, [], ◌∷◌, ◌==◌, if◌then◌else◌, or_else, any,
}
use adversarial_agent_runtim.Json.{Json, null, str, int, negsuc, Fields, get_field, object}
use adversarial_agent_runtim.Errors.{
  Result, ok, raise, raised, builtin, tool_error, tool_argument_error, ◌>>=◌,
}
use adversarial_agent_runtim.Response.ToolCalls.{ToolCall}
use adversarial_agent_runtim.Tools.Host.{
  Host, PythonResult, ChildRun, completed, timed_out, is_relative_to,
}

-- `args.get(key)`.
abbrev pub argument_of : String → Fields → Json
argument_of key args = or_else (get_field key args) null

module _ {W : Type 0} (host : Host W) where
  unfoldable pub confined_path : Json → W → Result (List String)
  confined_path (str path) w = host.resolve path w >>= (λ candidate.
      if is_relative_to candidate host.root
      then ok candidate
      else raise tool_error ("Path escapes workspace: " ++ path))
  confined_path other w = raise tool_argument_error "path must be a string"

  unfoldable pub read_file : Json → W → Result Json × W
  read_file path w =
      (confined_path path w >>= (λ p. host.read_text p w >>= (λ text. ok (str text))), w)

  -- `f"wrote {path}"`, for a path that is text.
  abbrev pub wrote : Json → Result (Unit {0}) × W → Result Json × W
  wrote (str path) (ok done, w) = (ok (str ("wrote " ++ path)), w)
  wrote other (ok done, w) = (ok null, w)
  wrote path (raised e, w) = (raised e, w)

  unfoldable pub write_file : Json → Json → W → Result Json × W
  write_file path (str content) w = elim (confined_path path w) [
    | raised e ↦ (raised e, w)
    | ok target ↦ wrote path (host.write_text target content w)
  ]
  write_file path other w = (raise tool_argument_error "content must be a string", w)

  abbrev pub python_fields : PythonResult → Json
  python_fields r =
      object (
        ("stdout", str r.stdout) ∷ ("stderr", str r.stderr) ∷ ("returncode", int r.returncode) ∷ [])

  -- `exc.stdout or ""` after a timeout: what is captured is bytes, which cannot be stored as JSON.
  abbrev pub captured : Option String → Result String
  captured none = ok ""
  captured (some bytes) =
      if bytes == ""
      then ok ""
      else raise (builtin "TypeError") "Object of type bytes is not JSON serializable"

  abbrev pub child_result : ChildRun → Result Json
  child_result (completed r) = ok (python_fields r)
  child_result (timed_out output) = captured output >>= (λ stdout. ok (
      python_fields
        (record { stdout = stdout; stderr = host.timeout_text; returncode = negsuc 0 })))

  abbrev pub network_block : String
  network_block =
      "\nimport socket\ndef _blocked_socket(*args, **kwargs):\n    raise RuntimeError(\"network disabled in run_python\")\nsocket.socket = _blocked_socket\nsocket.create_connection = _blocked_socket\n"

  unfoldable pub run_python : Json → W → Result Json × W
  run_python (str code) w =
      let (run, w') = host.run_child (network_block ++ "\n" ++ code) w in (run >>= child_result, w')
  run_python other w = (raise tool_argument_error "code must be a string", w)

  -- The checks on a URL in front of the fetch; a missing host name counts as an empty one.
  unfoldable pub allowed_host : String → Result (Unit {0})
  allowed_host name =
      if name == ""
      then raise tool_error "URL must include a host"
      else if any (λ allowed. allowed == name) host.allow_hosts
      then ok tt
      else raise tool_error ("Host is not allow-listed: " ++ name)

  unfoldable pub allowed_parts : String × Option String → Result (Unit {0})
  allowed_parts (scheme, hostname) =
      if scheme == "http" || scheme == "https"
      then allowed_host (or_else hostname "")
      else raise tool_error
          ("Unsupported URL scheme: " ++ (if scheme == "" then "<missing>" else scheme))

  unfoldable pub allowed_url : String → Result (Unit {0})
  allowed_url url = host.parse_url url >>= allowed_parts

  unfoldable pub http_get : Json → W → Result Json × W
  http_get (str url) w = elim (allowed_url url) [
    | raised e ↦ (raised e, w)
    | ok allowed ↦ let (text, w') = host.fetch url w in (text >>= (λ t. ok (str t)), w')
  ]
  http_get other w = (raise tool_argument_error "url must be a string", w)

  -- `_execute_once`, for every tool but `send_email`, which the executor takes before.
  unfoldable pub execute_once : ToolCall → W → Result Json × W
  execute_once call w =
      let args = call.arguments in
      if call.name == "read_file"
      then read_file (argument_of "path" args) w
      else if call.name == "write_file"
      then write_file (argument_of "path" args) (argument_of "content" args) w
      else if call.name == "run_python"
      then run_python (argument_of "code" args) w
      else if call.name == "http_get"
      then http_get (argument_of "url" args) w
      else (raise tool_argument_error ("Unknown tool: " ++ call.name), w)
