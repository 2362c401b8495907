-- ===== src/Tools/Confined.antt =====
-- What a tool call may do to the machine, agent/executer.py.
use adversarial_agent_runtim.Prelude.{
  String, Bool, true, false, ◌||◌, ◌≡◌, refl, ◌⊎◌, inl, inr, Option, List, ◌==◌, any, arith,
  Bool-cases, Option-cases, or_else, if◌then◌else◌,
}
use adversarial_agent_runtim.Json.{Json, null, bool, int, float, str, list, dict}
use adversarial_agent_runtim.Errors.{
  Result, ok, raised, tool_error, raise, bind_returns, Result-cases,
}
use adversarial_agent_runtim.Database.Schema.{Database}
use adversarial_agent_runtim.Database.SideEffects.{get_tool_execution}
use adversarial_agent_runtim.Response.ToolCalls.{ToolCall}
use adversarial_agent_runtim.Tools.Host.{Host, is_relative_to}
use adversarial_agent_runtim.Tools.Handlers.{
  confined_path, read_file, write_file, wrote, run_python, allowed_host, allowed_parts, allowed_url,
  http_get, execute_once,
}
use adversarial_agent_runtim.Tools.Executor.{execute}

module _ {W : Type 0} (host : Host W) where
  -- An HTTP address with a host name of the list.
  abbrev pub IsListed : String → Type 0
  IsListed url =
      (scheme : String) × (hostname : Option String) × (host.parse_url url ≡ ok (scheme, hostname))
      × ((scheme == "http" || scheme == "https") ≡ true)
      × (any (λ allowed. allowed == or_else hostname "") host.allow_hosts ≡ true)

  -- Nothing; a write to a path under the root; a child process; or a fetch from a listed host.
  abbrev pub IsAllowed : W → W → Type 0
  IsAllowed w w' =
      (w' ≡ w)
      ⊎ (((p : List String) × (content : String) × (is_relative_to p host.root ≡ true)
            × (w' ≡ (host.write_text p content w).1))
          ⊎ (((code : String) × (w' ≡ (host.run_child code w).1))
              ⊎ ((url : String) × IsListed url × (w' ≡ (host.fetch url w).1))))

  under_root :
      (candidate p : List String) (path : String)
      → (if is_relative_to candidate host.root then ok candidate else raise tool_error path) ≡ ok p
      → is_relative_to p host.root ≡ true
  under_root candidate p path same = elim (Bool-cases (is_relative_to candidate host.root)) [
    | inl inside ↦ ground (arith, same, inside)
    | inr outside ↦ ground (arith, same, outside)
  ]

  confined_path-under :
      (path : Json) (w : W) (p : List String)
      → confined_path host path w ≡ ok p
      → is_relative_to p host.root ≡ true
  unfolding confined_path
  confined_path-under (str path) w p same =
      let (candidate, _, checked) = bind_returns (host.resolve path w) _ p same in
      under_root candidate p _ checked
  confined_path-under null w p same = cc
  confined_path-under (bool b) w p same = cc
  confined_path-under (int i) w p same = cc
  confined_path-under (float r) w p same = cc
  confined_path-under (list vs) w p same = cc
  confined_path-under (dict d) w p same = cc

  machine-wrote : (path : Json) (r : Result (Unit {0})) (w : W) → (wrote host path (r, w)).1 ≡ w
  machine-wrote (str s) (ok done) w = refl
  machine-wrote null (ok done) w = refl
  machine-wrote (bool b) (ok done) w = refl
  machine-wrote (int i) (ok done) w = refl
  machine-wrote (float r) (ok done) w = refl
  machine-wrote (list vs) (ok done) w = refl
  machine-wrote (dict d) (ok done) w = refl
  machine-wrote path (raised e) w = refl

  write_file-Allowed :
      (path content : Json) (w : W) → IsAllowed w (write_file host path content w).1
  unfolding write_file
  write_file-Allowed path (str content) w = elim (Result-cases (confined_path host path w)) [
    | inl (p, inside) ↦
        rw (inside, write_file)
          (inr (
            inl (
              p,
              content,
              confined_path-under path w p inside,
              machine-wrote path (host.write_text p content w).0 (host.write_text p content w).1,
            )))
    | inr (e, outside) ↦ rw (outside, write_file) (inl refl)
  ]
  write_file-Allowed path null w = inl refl
  write_file-Allowed path (bool b) w = inl refl
  write_file-Allowed path (int i) w = inl refl
  write_file-Allowed path (float r) w = inl refl
  write_file-Allowed path (list vs) w = inl refl
  write_file-Allowed path (dict d) w = inl refl

  run_python-Allowed : (code : Json) (w : W) → IsAllowed w (run_python host code w).1
  unfolding run_python
  run_python-Allowed (str code) w = inr (inr (inl (_, refl)))
  run_python-Allowed null w = inl refl
  run_python-Allowed (bool b) w = inl refl
  run_python-Allowed (int i) w = inl refl
  run_python-Allowed (float r) w = inl refl
  run_python-Allowed (list vs) w = inl refl
  run_python-Allowed (dict d) w = inl refl

  allowed_host-listed :
      (name : String) (t : Unit {0})
      → allowed_host host name ≡ ok t
      → any (λ allowed. allowed == name) host.allow_hosts ≡ true
  unfolding allowed_host
  allowed_host-listed name t same =
      elim (Bool-cases (any (λ allowed. allowed == name) host.allow_hosts)) [
        | inl listed ↦ listed
        | inr missing ↦ ground (arith, same, missing)
      ]

  allowed_parts-listed :
      (scheme : String) (hostname : Option String) (t : Unit {0})
      → allowed_parts host (scheme, hostname) ≡ ok t
      → ((scheme == "http" || scheme == "https") ≡ true)
        × (any (λ allowed. allowed == or_else hostname "") host.allow_hosts ≡ true)
  unfolding allowed_parts
  allowed_parts-listed scheme hostname t same =
      elim (Bool-cases (scheme == "http" || scheme == "https")) [
        | inl web ↦ (web, allowed_host-listed (or_else hostname "") t (ground (arith, same, web)))
        | inr other ↦ ground (arith, same, other)
      ]

  allowed_url-IsListed : (url : String) (t : Unit {0}) → allowed_url host url ≡ ok t → IsListed url
  unfolding allowed_url
  allowed_url-IsListed url t same =
      let ((scheme, hostname), parsed, allowed) =
        bind_returns (host.parse_url url) (allowed_parts host) t same in
      let (web, listed) = allowed_parts-listed scheme hostname t allowed in
      (scheme, hostname, parsed, web, listed)

  http_get-Allowed : (url : Json) (w : W) → IsAllowed w (http_get host url w).1
  unfolding http_get
  http_get-Allowed (str url) w = elim (Result-cases (allowed_url host url)) [
    | inl (t, allowed) ↦
        rw (allowed, http_get) (inr (inr (inr (url, allowed_url-IsListed url t allowed, refl))))
    | inr (e, refused) ↦ rw (refused, http_get) (inl refl)
  ]
  http_get-Allowed null w = inl refl
  http_get-Allowed (bool b) w = inl refl
  http_get-Allowed (int i) w = inl refl
  http_get-Allowed (float r) w = inl refl
  http_get-Allowed (list vs) w = inl refl
  http_get-Allowed (dict d) w = inl refl

  chosen :
      (b : Bool) (x y : Result Json × W) (w : W)
      → IsAllowed w x.1
      → IsAllowed w y.1
      → IsAllowed w (if b then x else y).1
  chosen true x y w hx hy = hx
  chosen false x y w hx hy = hy

  execute_once-Allowed : (call : ToolCall) (w : W) → IsAllowed w (execute_once host call w).1
  unfolding execute_once read_file
  execute_once-Allowed call w = chosen (call.name == "read_file") _ _ w (inl refl) (
      chosen (call.name == "write_file") _ _ w (write_file-Allowed _ _ w) (
        chosen (call.name == "run_python") _ _ w (run_python-Allowed _ w)
          (chosen (call.name == "http_get") _ _ w (http_get-Allowed _ w) (inl refl))))

  -- A tool call changes the machine in one of these ways only: not at all, by writing to a path
  -- under the workspace root, by running a child process, or by fetching an HTTP address whose host
  -- name is on the list.
  pub execute-Allowed :
      (run_id now : String) (call : ToolCall) (key : String) (db : Database) (w : W)
      → IsAllowed w (execute host run_id now call key db w).2
  unfolding execute
  execute-Allowed run_id now call key db w = elim (Option-cases (get_tool_execution key db)) [
    | inr (row, found) ↦ rw (found, execute) (inl refl)
    | inl new ↦ elim (Bool-cases (call.name == "send_email")) [
      | inl email ↦ rw (new, email, execute) (inl refl)
      | inr other ↦ rw (new, other, execute) (execute_once-Allowed call w)
    ]
  ]
