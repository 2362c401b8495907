-- ===== src/Runtime/Config/Coerce.antt =====
-- `_coerce_runtime_config_values` of agent/runtime.py. A section holds `Path(value)` as text,
-- `float(value)` of an int, which raises an OverflowError where it is too large, and the order in
-- which the process iterates over a set of keys.
use Prim.Native.String.{◌++◌}
use adversarial_agent_runtim.Prelude.{
  suc, String, Bool, false, not, List, [], ◌∷◌, Option, some, ltb, keep, all, ◌==◌, if◌then◌else◌,
}
use adversarial_agent_runtim.Json.{Json, Items, str, int, float, list, pos, ℤ, cons, nil, to_list}
use adversarial_agent_runtim.Errors.{Result, ok, raise, agent_config_error, ◌>>=◌}
use adversarial_agent_runtim.Text.{join}
use adversarial_agent_runtim.Memory.Message.{max_context_tokens}
use adversarial_agent_runtim.Runtime.Config.Values.{
  ConfigValue, plain, path, tuple, Mapping, lookup, put, item, keys, among, sorted,
}

abbrev pub path_keys : List String
path_keys = "db_path" ∷ "trace_dir" ∷ "workspace_root" ∷ []

abbrev pub int_keys : List String
int_keys =
    "token_budget" ∷ "cost_budget_tokens" ∷ "max_steps" ∷ "max_retries" ∷ "circuit_max_failures"
    ∷ "circuit_cooldown_seconds" ∷ "no_progress_limit" ∷ "python_timeout_seconds"
    ∷ "python_memory_mb" ∷ []

abbrev pub float_keys : List String
float_keys = "retry_base_delay" ∷ "request_timeout_seconds" ∷ "http_timeout_seconds" ∷ []

abbrev pub config_keys : List String
config_keys =
    "db_path" ∷ "trace_dir" ∷ "workspace_root" ∷ "server_url" ∷ "token_budget"
    ∷ "cost_budget_tokens" ∷ "max_steps" ∷ "max_retries" ∷ "retry_base_delay"
    ∷ "request_timeout_seconds" ∷ "circuit_max_failures" ∷ "circuit_cooldown_seconds"
    ∷ "no_progress_limit" ∷ "python_timeout_seconds" ∷ "python_memory_mb" ∷ "http_timeout_seconds"
    ∷ "http_allow_hosts" ∷ []

unfoldable pub is_text : Json → Bool
is_text (str s) = not (s == "")
is_text _ = false

-- The comparison with `MAX_CONTEXT_TOKENS`; the value is an int by then.
unfoldable pub over_limit : Option ConfigValue → Bool
over_limit (some (plain (int (pos n)))) = ltb max_context_tokens n
over_limit _ = false

-- `for key in ks: values[key] = coerced(raw[key])`.
unfoldable pub coerce_each :
    (String → ConfigValue → Result ConfigValue) → List String → Mapping → Mapping → Result Mapping
coerce_each coerced [] raw values = ok values
coerce_each coerced (k ∷ ks) raw values =
    item k raw >>= λ given. coerced k given >>= λ v. coerce_each coerced ks raw (put k v values)

unfoldable pub check_keys : String → Mapping → Result (Unit {0})
check_keys source raw =
    let missing = sorted (keep (λ k. not (among (keys raw) k)) config_keys) in
    let unknown = sorted (keep (λ k. not (among config_keys k)) (keys raw)) in
    elim missing [
      | k ∷ ks ↦
          raise agent_config_error
            ("missing runtime config key(s) in " ++ source ++ ": " ++ join ", " (k ∷ ks))
      | [] ↦ elim unknown [
        | k ∷ ks ↦
            raise agent_config_error
              ("unknown runtime config key(s) in " ++ source ++ ": " ++ join ", " (k ∷ ks))
        | [] ↦ ok tt
      ]
    ]

unfoldable pub check_budget : String → Mapping → Result (Unit {0})
check_budget source values =
    if over_limit (lookup "token_budget" values)
    then raise agent_config_error ("token_budget must be <= 8000 in " ++ source)
    else ok tt

module _ (path_text : String → String) (float_of : ℤ → Result String) where
  unfoldable pub path_value : String → String → ConfigValue → Result ConfigValue
  path_value source key (plain (str s)) = ok (path (path_text s))
  path_value source key (path s) = ok (path s)
  path_value source key _ = raise agent_config_error (key ++ " must be a path string in " ++ source)

  unfoldable pub url_value : String → String → ConfigValue → Result ConfigValue
  url_value source key (plain (str s)) =
      if s == ""
      then raise agent_config_error (key ++ " must be a non-empty string in " ++ source)
      else ok (plain (str s))
  url_value source key _ =
      raise agent_config_error (key ++ " must be a non-empty string in " ++ source)

  unfoldable pub int_value : String → String → ConfigValue → Result ConfigValue
  int_value source key (plain (int (pos (suc n)))) = ok (plain (int (pos (suc n))))
  int_value source key (plain (int z)) =
      raise agent_config_error (key ++ " must be a positive integer in " ++ source)
  int_value source key _ = raise agent_config_error (key ++ " must be an integer in " ++ source)

  unfoldable pub float_value : String → String → ConfigValue → Result ConfigValue
  float_value source key (plain (int z)) = float_of z >>= λ r. ok (plain (float r))
  float_value source key (plain (float r)) = ok (plain (float r))
  float_value source key _ = raise agent_config_error (key ++ " must be a number in " ++ source)

  unfoldable pub host_entries : String → String → Items → Result ConfigValue
  host_entries source key nil =
      raise agent_config_error (key ++ " must be a non-empty list in " ++ source)
  host_entries source key (cons v rest) =
      if all is_text (to_list (cons v rest))
      then ok (tuple (cons v rest))
      else raise agent_config_error (key ++ " entries must be non-empty strings in " ++ source)

  unfoldable pub hosts_value : String → String → ConfigValue → Result ConfigValue
  hosts_value source key (plain (list entries)) = host_entries source key entries
  hosts_value source key (tuple entries) = host_entries source key entries
  hosts_value source key _ =
      raise agent_config_error (key ++ " must be a non-empty list in " ++ source)

  unfoldable pub coerce_runtime_config_values :
      (List String → List String) → String → Mapping → Result Mapping
  coerce_runtime_config_values order source raw = check_keys source raw >>= λ _.
      coerce_each (path_value source) (order path_keys) raw [] >>= λ with_paths.
      coerce_each (url_value source) ("server_url" ∷ []) raw with_paths >>= λ with_url.
      coerce_each (int_value source) (order int_keys) raw with_url >>= λ with_ints.
      check_budget source with_ints >>= λ _.
      coerce_each (float_value source) (order float_keys) raw with_ints >>= λ with_floats.
      coerce_each (hosts_value source) ("http_allow_hosts" ∷ []) raw with_floats
