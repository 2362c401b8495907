-- ===== src/Runtime/Config/Values.antt =====
-- The values of a configuration, `dict[str, Any]` of agent/runtime.py, and the dict operations that
-- its coercion makes.
use adversarial_agent_runtim.Prelude.{
  ℕ, String, Bool, true, false, Option, none, some, List, [], ◌∷◌, ltb, any, ◌==◌, if◌then◌else◌,
}
use adversarial_agent_runtim.Json.{Json, Items}
use adversarial_agent_runtim.Errors.{Result, ok, raise, builtin}
use adversarial_agent_runtim.Text.{codes}

-- What YAML or a caller may give: values as in JSON, a `Path` with its text, a tuple, and any other
-- object.
pub data ConfigValue : Type 0 where
  plain : Json → ConfigValue
  path : String → ConfigValue
  tuple : Items → ConfigValue
  other : ConfigValue

-- A dict, by its entries. Keys are texts, as the annotation says.
abbrev pub Mapping : Type 0
Mapping = List (String × ConfigValue)

unfoldable pub lookup : String → Mapping → Option ConfigValue
lookup k [] = none
lookup k ((j, v) ∷ rest) = if j == k then some v else lookup k rest

-- `values[key] = value`.
unfoldable pub put : String → ConfigValue → Mapping → Mapping
put k v [] = (k, v) ∷ []
put k v ((j, w) ∷ rest) = if j == k then (j, v) ∷ rest else (j, w) ∷ put k v rest

-- `raw[key]`.
unfoldable pub item : String → Mapping → Result ConfigValue
item k raw = elim (lookup k raw) [ none ↦ raise (builtin "KeyError") k | some v ↦ ok v ]

-- `{**raw, **overrides}`.
unfoldable pub merge : Mapping → Mapping → Mapping
merge raw [] = raw
merge raw ((k, v) ∷ overrides) = merge (put k v raw) overrides

abbrev pub keys : Mapping → List String
keys [] = []
keys ((k, v) ∷ rest) = k ∷ keys rest

-- `key in keys`.
abbrev pub among : List String → String → Bool
among ks k = any (λ j. j == k) ks

-- The order of texts, by code points.
unfoldable pub comes_before : List ℕ → List ℕ → Bool
comes_before [] [] = false
comes_before [] (d ∷ ds) = true
comes_before (c ∷ cs) [] = false
comes_before (c ∷ cs) (d ∷ ds) =
    let later = comes_before cs ds in if ltb c d then true else if ltb d c then false else later

unfoldable pub insert_sorted : String → List String → List String
unfolding codes comes_before
insert_sorted k [] = k ∷ []
insert_sorted k (j ∷ js) =
    let rest = insert_sorted k js in
    if comes_before (codes j) (codes k) then j ∷ rest else k ∷ j ∷ js

-- `sorted(keys)`.
unfoldable pub sorted : List String → List String
sorted [] = []
sorted (k ∷ ks) = insert_sorted k (sorted ks)
