-- ===== src/Runtime/Config/Load.antt =====
-- `RuntimeConfig` and `load_runtime_config` of agent/runtime.py. Reading the YAML file gives the
-- mapping that is loaded.
use Prim.Native.String.{◌++◌}
use adversarial_agent_runtim.Prelude.{String, not, List, [], ◌∷◌, Option, none, some, keep}
use adversarial_agent_runtim.Json.{ℤ}
use adversarial_agent_runtim.Errors.{Result, ok, raise, agent_config_error, ◌>>=◌}
use adversarial_agent_runtim.Text.{join}
use adversarial_agent_runtim.Runtime.Config.Values.{
  ConfigValue, Mapping, put, item, merge, keys, among, sorted,
}
use adversarial_agent_runtim.Runtime.Config.Coerce.{config_keys, coerce_runtime_config_values}

-- `{key: getattr(self, key) for key in ks}`.
unfoldable pub attributes : List String → Mapping → Result Mapping
attributes [] config = ok []
attributes (k ∷ ks) config =
    item k config >>= λ v. attributes ks config >>= λ rest. ok ((k, v) ∷ rest)

-- `object.__setattr__(self, key, value)` for each coerced value.
abbrev pub set_attributes : Mapping → Mapping → Mapping
set_attributes config values = merge config values

-- The overrides that are not None.
unfoldable pub clean_overrides : List (String × Option ConfigValue) → Mapping
clean_overrides [] = []
clean_overrides ((k, none) ∷ rest) = clean_overrides rest
clean_overrides ((k, some v) ∷ rest) = put k v (clean_overrides rest)

unfoldable pub check_overrides : Mapping → Result (Unit {0})
check_overrides given = elim (sorted (keep (λ k. not (among config_keys k)) (keys given))) [
  | [] ↦ ok tt
  | k ∷ ks ↦ raise agent_config_error ("unknown runtime config override(s): " ++ join ", " (k ∷ ks))
]

module _ (path_text : String → String) (float_of : ℤ → Result String)
    (order : List String → List String) where
  -- `RuntimeConfig(**values)` with its `__post_init__`; a configuration is the mapping of its
  -- attributes.
  unfoldable pub post_init : Mapping → Result Mapping
  post_init config = attributes (order config_keys) config >>= λ given.
      coerce_runtime_config_values path_text float_of order "RuntimeConfig" given >>= λ values.
      ok (set_attributes config values)

  unfoldable pub load_runtime_config :
      String → Mapping → List (String × Option ConfigValue) → Result Mapping
  load_runtime_config config_path raw overrides =
      let given = clean_overrides overrides in
      check_overrides given >>= λ _.
      coerce_runtime_config_values path_text float_of order config_path (merge raw given)
      >>= λ values. post_init values
