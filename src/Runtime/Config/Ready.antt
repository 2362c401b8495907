-- ===== src/Runtime/Config/Ready.antt =====
-- `load_runtime_config` and `RuntimeConfig.__post_init__` of agent/runtime.py as a whole.
use mathlib.Core.Path.{subst}
use adversarial_agent_runtim.Prelude.{
  String, ◌≡◌, true, Option, some, List, arith, inl, inr, Option-cases,
}
use adversarial_agent_runtim.Json.{ℤ}
use adversarial_agent_runtim.Errors.{Result, ok, bind_returns}
use adversarial_agent_runtim.Runtime.Config.Values.{ConfigValue, Mapping, lookup, merge, among}
use adversarial_agent_runtim.Runtime.Config.Coerce.{config_keys, coerce_runtime_config_values}
use adversarial_agent_runtim.Runtime.Config.Load.{
  attributes, clean_overrides, check_overrides, post_init, load_runtime_config,
}
use adversarial_agent_runtim.Runtime.Config.Mappings.{lookup-merge}
use adversarial_agent_runtim.Runtime.Config.Usable.{is_proper, Iterates, Has, IsComplete}
use adversarial_agent_runtim.Runtime.Config.Loaded.{coerced-IsComplete}

module _ (path_text : String → String) (float_of : ℤ → Result String)
    (order : List String → List String) where
  -- Each configuration key is there with a proper value.
  abbrev Provides : String → Mapping → Type 0
  Provides k config = (v : ConfigValue) × (lookup k config ≡ some v) × (is_proper k v ≡ true)

  post_init-Provides :
      (values config : Mapping) (k : String)
      → Iterates order
      → IsComplete values
      → post_init path_text float_of order values ≡ ok config
      → among config_keys k ≡ true
      → Provides k config
  unfolding post_init
  post_init-Provides values config k iterates complete returned inside =
      let (given, _, next) =
        bind_returns (attributes (order config_keys) values) _ config returned in
      let (again, done, last) =
        bind_returns (coerce_runtime_config_values path_text float_of order "RuntimeConfig" given) _
          config next in
      let (built, has) =
        coerced-IsComplete path_text float_of order "RuntimeConfig" given again iterates done in
      subst (Provides k) (ok_same (merge values again) config last)
        (of_merged again built (has k inside))
    where
      ok_same : (m n : Mapping) → Path (Result Mapping) (ok m) (ok n) → m ≡ n
      ok_same m n same = cc

      of_merged :
          (again : Mapping) → IsComplete again → Has k again → Provides k (merge values again)
      of_merged again (dict, holds) has = elim (Option-cases (lookup k again)) [
        | inl missing ↦ ground (arith, missing, has)
        | inr (v, there) ↦
            (v, ground (arith, there, lookup-merge k values again dict), holds k v there)
      ]

  -- Where the process iterates over all keys of a set and no others: a configuration that
  -- load_runtime_config returns has a value for each of its keys, and the value is of the kind that
  -- the key asks for: a path, a positive int, in case of the token budget at most 8000, a float, a
  -- non-empty text or a non-empty tuple of non-empty texts.
  pub load_runtime_config-Provides :
      (config_path : String) (raw : Mapping) (overrides : List (String × Option ConfigValue))
      (config : Mapping) (k : String)
      → Iterates order
      → load_runtime_config path_text float_of order config_path raw overrides ≡ ok config
      → among config_keys k ≡ true
      → Provides k config
  unfolding load_runtime_config
  load_runtime_config-Provides config_path raw overrides config k iterates returned inside =
      let given = clean_overrides overrides in
      let (_, _, next) = bind_returns (check_overrides given) _ config returned in
      let (values, coerced, last) =
        bind_returns
          (coerce_runtime_config_values path_text float_of order config_path (merge raw given)) _
          config next in
      let (complete, _) =
        coerced-IsComplete path_text float_of order config_path (merge raw given) values iterates
          coerced in
      post_init-Provides values config k iterates complete last inside
