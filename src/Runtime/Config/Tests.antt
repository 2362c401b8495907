-- ===== src/Runtime/Config/Tests.antt =====
-- The theorem on configurations at the file config_agent.yaml.
use adversarial_agent_runtim.Prelude.{String, ◌≡◌, refl, true, List, [], ◌∷◌, Option, some}
use adversarial_agent_runtim.Json.{ℤ, num, str, float, list, items}
use adversarial_agent_runtim.Errors.{Result, ok}
use adversarial_agent_runtim.Text.{codes}
use adversarial_agent_runtim.Runtime.Config.Values.{
  ConfigValue, plain, path, tuple, Mapping, lookup, put, item, merge, sorted, insert_sorted,
  comes_before,
}
use adversarial_agent_runtim.Runtime.Config.Coerce.{
  is_text, over_limit, path_value, url_value, int_value, float_value, host_entries, hosts_value,
  coerce_each, check_keys, check_budget, coerce_runtime_config_values,
}
use adversarial_agent_runtim.Runtime.Config.Load.{
  attributes, clean_overrides, check_overrides, post_init, load_runtime_config,
}
use adversarial_agent_runtim.Runtime.Config.Usable.{is_proper, Iterates}
use adversarial_agent_runtim.Runtime.Config.Ready.{load_runtime_config-Provides}

abbrev config_file : Mapping
config_file =
    ("db_path", plain (str "runs/agent_events.db"))
    ∷ ("trace_dir", plain (str "runs/traces"))
    ∷ ("workspace_root", plain (str "workspace"))
    ∷ ("server_url", plain (str "http://localhost:8000/chat"))
    ∷ ("token_budget", plain (num 8000))
    ∷ ("cost_budget_tokens", plain (num 50000))
    ∷ ("max_steps", plain (num 50))
    ∷ ("max_retries", plain (num 4))
    ∷ ("retry_base_delay", plain (float "0.25"))
    ∷ ("request_timeout_seconds", plain (float "5.0"))
    ∷ ("circuit_max_failures", plain (num 5))
    ∷ ("circuit_cooldown_seconds", plain (num 60))
    ∷ ("no_progress_limit", plain (num 3))
    ∷ ("python_timeout_seconds", plain (num 5))
    ∷ ("python_memory_mb", plain (num 64))
    ∷ ("http_timeout_seconds", plain (float "10.0"))
    ∷ ("http_allow_hosts", plain (list (items (str "localhost" ∷ str "127.0.0.1" ∷ []))))
    ∷ []

abbrev float_text : ℤ → Result String
float_text z = ok "1.0"

abbrev in_order : List String → List String
in_order ks = ks

in_order-Iterates : Iterates in_order
in_order-Iterates ks = (λ P all. all, λ k inside. inside)

abbrev tighter : List (String × Option ConfigValue)
tighter = ("max_steps", some (plain (num 7))) ∷ []

abbrev loaded : Mapping
loaded =
    ("db_path", path "runs/agent_events.db")
    ∷ ("trace_dir", path "runs/traces")
    ∷ ("workspace_root", path "workspace")
    ∷ ("server_url", plain (str "http://localhost:8000/chat"))
    ∷ ("token_budget", plain (num 8000))
    ∷ ("cost_budget_tokens", plain (num 50000))
    ∷ ("max_steps", plain (num 7))
    ∷ ("max_retries", plain (num 4))
    ∷ ("circuit_max_failures", plain (num 5))
    ∷ ("circuit_cooldown_seconds", plain (num 60))
    ∷ ("no_progress_limit", plain (num 3))
    ∷ ("python_timeout_seconds", plain (num 5))
    ∷ ("python_memory_mb", plain (num 64))
    ∷ ("retry_base_delay", plain (float "0.25"))
    ∷ ("request_timeout_seconds", plain (float "5.0"))
    ∷ ("http_timeout_seconds", plain (float "10.0"))
    ∷ ("http_allow_hosts", tuple (items (str "localhost" ∷ str "127.0.0.1" ∷ [])))
    ∷ []

loads :
    load_runtime_config (λ s. s) float_text in_order "config_agent.yaml" config_file tighter
    ≡ ok loaded
unfolding lookup put item merge sorted insert_sorted comes_before is_text over_limit path_value
    url_value int_value float_value host_entries hosts_value coerce_each check_keys check_budget
    coerce_runtime_config_values attributes clean_overrides check_overrides post_init
    load_runtime_config codes
loads = refl

load_runtime_config-Provides_example :
    (v : ConfigValue) × (lookup "max_steps" loaded ≡ some v) × (is_proper "max_steps" v ≡ true)
load_runtime_config-Provides_example =
    load_runtime_config-Provides (λ s. s) float_text in_order "config_agent.yaml" config_file
      tighter loaded "max_steps" in_order-Iterates loads refl
