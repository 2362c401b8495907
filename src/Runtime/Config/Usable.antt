-- ===== src/Runtime/Config/Usable.antt =====
-- What the configurations of agent/runtime.py hold.
use mathlib.Core.Path.{subst}
use adversarial_agent_runtim.Prelude.{
  suc, String, Bool, ◌≡◌, true, false, not, ◌&&◌, ◌||◌, List, [], ◌∷◌, All, all, arith, ◌==◌, leb,
  is_some,
}
use adversarial_agent_runtim.Json.{ℤ, pos, Items, cons, to_list, str, int, float}
use adversarial_agent_runtim.Errors.{Result, ok, bind_returns}
use adversarial_agent_runtim.Runtime.Config.Values.{
  ConfigValue, plain, path, tuple, Mapping, lookup, put, item, among,
}
use adversarial_agent_runtim.Runtime.Config.Coerce.{
  path_keys, int_keys, float_keys, is_text, path_value, url_value, int_value, float_value,
  host_entries, hosts_value, coerce_each,
}
use adversarial_agent_runtim.Runtime.Config.Mappings.{IsDict, Holds, put-has}

-- A value of the kind that its key asks for.
unfoldable pub is_proper : String → ConfigValue → Bool
is_proper k (path s) = among path_keys k
is_proper k (plain (int (pos (suc n)))) =
    among int_keys k && (not (k == "token_budget") || leb (suc n) 8000)
is_proper k (plain (float r)) = among float_keys k
is_proper k (plain (str s)) = k == "server_url" && not (s == "")
is_proper k (tuple (cons v rest)) = k == "http_allow_hosts" && all is_text (to_list (cons v rest))
is_proper k _ = false

-- Up to the limit on `token_budget`, which is checked after the ints.
unfoldable pub is_of_kind : String → ConfigValue → Bool
is_of_kind k (path s) = among path_keys k
is_of_kind k (plain (int (pos (suc n)))) = among int_keys k
is_of_kind k (plain (str s)) = k == "server_url" && not (s == "")
is_of_kind k _ = false

-- The process goes through all keys of a set, and through no others.
abbrev pub Iterates : (List String → List String) → Type 1
Iterates order =
    (ks : List String)
    → ((P : String → Type 0) → All P ks → All P (order ks))
      × ((k : String) → among ks k ≡ true → among (order ks) k ≡ true)

-- A key is there.
abbrev pub Has : String → Mapping → Type 0
Has k m = is_some (lookup k m) ≡ true

ok_same : (m n : Mapping) → Path (Result Mapping) (ok m) (ok n) → m ≡ n
ok_same m n same = cc

module _ (coerced : String → ConfigValue → Result ConfigValue) where
  pub coerce_each-keeps {ℓ} :
      (Q : String → Type 0) (P : Mapping → Type ℓ)
      → ((k : String) (given v : ConfigValue) (m : Mapping)
          → Q k
          → coerced k given ≡ ok v
          → P m
          → P (put k v m))
      → (ks : List String) (raw values result : Mapping) → All Q ks
      → P values
      → coerce_each coerced ks raw values ≡ ok result
      → P result
  unfolding coerce_each
  coerce_each-keeps Q P each [] raw values result q h returned =
      subst P (ok_same values result returned) h
  coerce_each-keeps Q P each (k ∷ ks) raw values result (q, qs) h returned =
      let (given, _, next) = bind_returns (item k raw) _ result returned in
      let (v, done, rest) = bind_returns (coerced k given) _ result next in
      coerce_each-keeps Q P each ks raw (put k v values) result qs (each k given v values q done h)
        rest

  pub coerce_each-Has :
      (j : String) (ks : List String) (raw values result : Mapping)
      → (among ks j || is_some (lookup j values)) ≡ true
      → coerce_each coerced ks raw values ≡ ok result
      → Has j result
  unfolding coerce_each
  coerce_each-Has j [] raw values result h returned =
      ground (arith, h, ok_same values result returned)
  coerce_each-Has j (k ∷ ks) raw values result h returned =
      let (given, _, next) = bind_returns (item k raw) _ result returned in
      let (v, done, rest) = bind_returns (coerced k given) _ result next in
      coerce_each-Has j ks raw (put k v values) result (ground (arith, h, put-has j k v values))
        rest

-- The properties of the mapping that the coercion builds.
abbrev pub IsBuilt : Mapping → Type 0
IsBuilt m = IsDict m × Holds (λ k v. is_of_kind k v ≡ true) m

abbrev pub IsComplete : Mapping → Type 0
IsComplete m = IsDict m × Holds (λ k v. is_proper k v ≡ true) m

module _ (path_text : String → String) (float_of : ℤ → Result String) (source : String) where
  pub path_value-kind :
      (k : String) (given v : ConfigValue)
      → among path_keys k ≡ true
      → path_value path_text float_of source k given ≡ ok v
      → is_of_kind k v ≡ true
  unfolding path_value is_of_kind
  path_value-kind k given v h done = grind (arith, h, done)

  pub url_value-kind :
      (k : String) (given v : ConfigValue)
      → (k == "server_url") ≡ true
      → url_value path_text float_of source k given ≡ ok v
      → is_of_kind k v ≡ true
  unfolding url_value is_of_kind
  url_value-kind k given v h done = grind (arith, h, done)

  pub int_value-kind :
      (k : String) (given v : ConfigValue)
      → among int_keys k ≡ true
      → int_value path_text float_of source k given ≡ ok v
      → is_of_kind k v ≡ true
  unfolding int_value is_of_kind
  int_value-kind k given v h done = grind (arith, h, done)

  pub float_value-proper :
      (k : String) (given v : ConfigValue)
      → among float_keys k ≡ true
      → float_value path_text float_of source k given ≡ ok v
      → is_proper k v ≡ true
  unfolding float_value is_proper
  float_value-proper k (plain (int z)) v h done =
      let (r, _, e) = bind_returns (float_of z) (λ r. ok (plain (float r))) v done in
      grind (arith, h, e)
  float_value-proper k given v h done = grind (arith, h, done)

  host_entries-proper :
      (k : String) (entries : Items) (v : ConfigValue)
      → (k == "http_allow_hosts") ≡ true
      → host_entries path_text float_of source k entries ≡ ok v
      → is_proper k v ≡ true
  unfolding host_entries is_proper
  host_entries-proper k entries v h done = grind (arith, h, done)

  pub hosts_value-proper :
      (k : String) (given v : ConfigValue)
      → (k == "http_allow_hosts") ≡ true
      → hosts_value path_text float_of source k given ≡ ok v
      → is_proper k v ≡ true
  unfolding hosts_value is_proper
  hosts_value-proper k given v h done = grind (arith, h, done, host_entries-proper k)
