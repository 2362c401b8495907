-- ===== src/Runtime/Config/Loaded.antt =====
-- What a configuration holds that `load_runtime_config` of agent/runtime.py returns.
use mathlib.Core.Path.{subst}
use adversarial_agent_runtim.Prelude.{
  String, Bool, ◌≡◌, refl, sym, ap, ◌∙◌, eq_iff, true, false, some, List, [], ◌∷◌, All, arith, ◌==◌,
  inl, inr, ◌⊎◌,
}
use adversarial_agent_runtim.Json.{ℤ}
use adversarial_agent_runtim.Errors.{Result, ok, bind_returns}
use adversarial_agent_runtim.Runtime.Config.Values.{ConfigValue, Mapping, lookup, among}
use adversarial_agent_runtim.Runtime.Config.Coerce.{
  path_keys, int_keys, float_keys, config_keys, over_limit, path_value, url_value, int_value,
  float_value, hosts_value, coerce_each, check_keys, check_budget, coerce_runtime_config_values,
}
use adversarial_agent_runtim.Runtime.Config.Mappings.{
  IsDict, Holds, among-All, put-IsDict, put-Holds,
}
use adversarial_agent_runtim.Runtime.Config.Usable.{
  is_proper, is_of_kind, Iterates, Has, IsComplete, coerce_each-keeps, coerce_each-Has,
  path_value-kind, url_value-kind, int_value-kind, float_value-proper, hosts_value-proper,
}

-- A value of its kind is proper once the limit on `token_budget` is checked.
checked :
    (k : String) (v : ConfigValue)
    → is_of_kind k v ≡ true
    → ((k == "token_budget") ≡ true → over_limit (some v) ≡ false)
    → is_proper k v ≡ true
unfolding is_of_kind is_proper over_limit
checked k v h limit = grind (arith, h, limit)

nothing-Holds : Holds (λ k v. is_of_kind k v ≡ true) []
unfolding lookup
nothing-Holds k v found = cc

limited :
    (m : Mapping) (k : String) (v : ConfigValue)
    → lookup k m ≡ some v
    → over_limit (lookup "token_budget" m) ≡ false
    → (k == "token_budget") ≡ true
    → over_limit (some v) ≡ false
limited m k v found limit same =
    subst (λ x. over_limit x ≡ false)
      (ap (λ j. lookup j m) (sym ((eq_iff k "token_budget").0 same)) ∙ found) limit

-- The key stands in one of the loops of the coercion.
abbrev InALoop : String → Type 0
InALoop k =
    (among path_keys k ≡ true)
    ⊎ (among int_keys k ≡ true)
    ⊎ (among float_keys k ≡ true)
    ⊎ (among ("server_url" ∷ []) k ≡ true)
    ⊎ (among ("http_allow_hosts" ∷ []) k ≡ true)

covered : (k : String) → among config_keys k ≡ true → InALoop k
covered k = among-All InALoop config_keys k all_keys
  where
    all_keys : All InALoop config_keys
    all_keys = (
      inl refl,
      (
        inl refl,
        (
          inl refl,
          (
            inr (inr (inr (inl refl))),
            (
              inr (inl refl),
              (
                inr (inl refl),
                (
                  inr (inl refl),
                  (
                    inr (inl refl),
                    (
                      inr (inr (inl refl)),
                      (
                        inr (inr (inl refl)),
                        (
                          inr (inl refl),
                          (
                            inr (inl refl),
                            (
                              inr (inl refl),
                              (
                                inr (inl refl),
                                (
                                  inr (inl refl),
                                  (inr (inr (inl refl)), (inr (inr (inr (inr refl))), tt)),
                                ),
                              ),
                            ),
                          ),
                        ),
                      ),
                    ),
                  ),
                ),
              ),
            ),
          ),
        ),
      ),
    )

module _ (coerced : String → ConfigValue → Result ConfigValue) where
  each-builds :
      (Q : String → Type 0) (kind : String → ConfigValue → Bool)
      → ((k : String) (given v : ConfigValue) → Q k → coerced k given ≡ ok v → kind k v ≡ true)
      → (ks : List String) (raw values result : Mapping) → All Q ks
      → IsDict values × Holds (λ k v. kind k v ≡ true) values
      → coerce_each coerced ks raw values ≡ ok result
      → IsDict result × Holds (λ k v. kind k v ≡ true) result
  each-builds Q kind gives ks raw values result q h returned =
      coerce_each-keeps coerced Q (λ m. IsDict m × Holds (λ k v. kind k v ≡ true) m)
        (λ k given v m q' done (dict, holds). (
          put-IsDict k v m dict,
          put-Holds (λ k v. kind k v ≡ true) k v m (gives k given v q' done) holds,
        ))
        ks raw values result q h returned

module _ (path_text : String → String) (float_of : ℤ → Result String)
    (order : List String → List String) (source : String) where
  budget_fits :
      (m : Mapping) → check_budget source m ≡ ok tt → over_limit (lookup "token_budget" m) ≡ false
  unfolding check_budget
  budget_fits m fine = grind (arith, fine)

  stages-IsComplete :
      (raw m1 m2 m3 m4 result : Mapping)
      → Iterates order
      → coerce_each (path_value path_text float_of source) (order path_keys) raw [] ≡ ok m1
      → coerce_each (url_value path_text float_of source) ("server_url" ∷ []) raw m1 ≡ ok m2
      → coerce_each (int_value path_text float_of source) (order int_keys) raw m2 ≡ ok m3
      → over_limit (lookup "token_budget" m3) ≡ false
      → coerce_each (float_value path_text float_of source) (order float_keys) raw m3 ≡ ok m4
      → coerce_each (hosts_value path_text float_of source) ("http_allow_hosts" ∷ []) raw m4
        ≡ ok result
      → IsComplete result
  stages-IsComplete raw m1 m2 m3 m4 result iterates e1 e2 e3 limit e4 e5 =
      let b1 =
        each-builds (path_value path_text float_of source) (λ k. among path_keys k ≡ true)
          is_of_kind (path_value-kind path_text float_of source) (order path_keys) raw [] m1
          ((iterates path_keys).0 (λ k. among path_keys k ≡ true) (refl, (refl, (refl, tt))))
          (tt, nothing-Holds) e1 in
      let b2 =
        each-builds (url_value path_text float_of source) (λ k. (k == "server_url") ≡ true)
          is_of_kind (url_value-kind path_text float_of source) ("server_url" ∷ []) raw m1 m2
          (refl, tt) b1 e2 in
      let (dict, kinds) =
        each-builds (int_value path_text float_of source) (λ k. among int_keys k ≡ true) is_of_kind
          (int_value-kind path_text float_of source) (order int_keys) raw m2 m3
          ((iterates int_keys).0 (λ k. among int_keys k ≡ true)
            (refl, (refl, (refl, (refl, (refl, (refl, (refl, (refl, (refl, tt))))))))))
          b2 e3 in
      let b4 =
        each-builds (float_value path_text float_of source) (λ k. among float_keys k ≡ true)
          is_proper (float_value-proper path_text float_of source) (order float_keys) raw m3 m4
          ((iterates float_keys).0 (λ k. among float_keys k ≡ true) (refl, (refl, (refl, tt))))
          (dict, λ k v found. checked k v (kinds k v found) (limited m3 k v found limit)) e4 in
      each-builds (hosts_value path_text float_of source) (λ k. (k == "http_allow_hosts") ≡ true)
        is_proper (hosts_value-proper path_text float_of source) ("http_allow_hosts" ∷ []) raw m4
        result (refl, tt) b4 e5

  stages-have :
      (k : String) (raw m1 m2 m3 m4 result : Mapping)
      → Iterates order
      → coerce_each (path_value path_text float_of source) (order path_keys) raw [] ≡ ok m1
      → coerce_each (url_value path_text float_of source) ("server_url" ∷ []) raw m1 ≡ ok m2
      → coerce_each (int_value path_text float_of source) (order int_keys) raw m2 ≡ ok m3
      → coerce_each (float_value path_text float_of source) (order float_keys) raw m3 ≡ ok m4
      → coerce_each (hosts_value path_text float_of source) ("http_allow_hosts" ∷ []) raw m4
        ≡ ok result
      → InALoop k
      → Has k result
  stages-have k raw m1 m2 m3 m4 result iterates e1 e2 e3 e4 e5 inside =
      let h1 = stage (path_value path_text float_of source) (order path_keys) [] m1 e1 in
      let h2 = stage (url_value path_text float_of source) ("server_url" ∷ []) m1 m2 e2 in
      let h3 = stage (int_value path_text float_of source) (order int_keys) m2 m3 e3 in
      let h4 = stage (float_value path_text float_of source) (order float_keys) m3 m4 e4 in
      let h5 =
        stage (hosts_value path_text float_of source) ("http_allow_hosts" ∷ []) m4 result e5 in
      elim inside [
        | inl place ↦ h5.1 (h4.1 (h3.1 (h2.1 (h1.0 ((iterates path_keys).1 k place)))))
        | inr (inl limit) ↦ h5.1 (h4.1 (h3.0 ((iterates int_keys).1 k limit)))
        | inr (inr (inl delay)) ↦ h5.1 (h4.0 ((iterates float_keys).1 k delay))
        | inr (inr (inr (inl url))) ↦ h5.1 (h4.1 (h3.1 (h2.0 url)))
        | inr (inr (inr (inr hosts))) ↦ h5.0 hosts
      ]
    where
      stage :
          (coerced : String → ConfigValue → Result ConfigValue) (ks : List String)
          (values built : Mapping)
          → coerce_each coerced ks raw values ≡ ok built
          → (among ks k ≡ true → Has k built) × (Has k values → Has k built)
      stage coerced ks values built e = (
        λ there. coerce_each-Has coerced k ks raw values built (ground (arith, there)) e,
        λ there. coerce_each-Has coerced k ks raw values built (ground (arith, there)) e,
      )

  -- What the coercion returns.
  pub coerced-IsComplete :
      (raw result : Mapping)
      → Iterates order
      → coerce_runtime_config_values path_text float_of order source raw ≡ ok result
      → IsComplete result × ((k : String) → among config_keys k ≡ true → Has k result)
  unfolding coerce_runtime_config_values
  coerced-IsComplete raw result iterates returned =
      let (_, _, r1) = bind_returns (check_keys source raw) _ result returned in
      let (m1, e1, r2) =
        bind_returns (coerce_each (path_value path_text float_of source) (order path_keys) raw []) _
          result r1 in
      let (m2, e2, r3) =
        bind_returns (coerce_each (url_value path_text float_of source) ("server_url" ∷ []) raw m1)
          _ result r2 in
      let (m3, e3, r4) =
        bind_returns (coerce_each (int_value path_text float_of source) (order int_keys) raw m2) _
          result r3 in
      let (_, fine, r5) = bind_returns (check_budget source m3) _ result r4 in
      let (m4, e4, e5) =
        bind_returns (coerce_each (float_value path_text float_of source) (order float_keys) raw m3)
          _ result r5 in
      let limit = budget_fits m3 fine in
      (
        stages-IsComplete raw m1 m2 m3 m4 result iterates e1 e2 e3 limit e4 e5,
        λ k inside. stages-have k raw m1 m2 m3 m4 result iterates e1 e2 e3 e4 e5 (covered k inside),
      )
