-- ===== src/Runtime/Config/Mappings.antt =====
-- The laws of the dicts of a configuration, agent/runtime.py.
use mathlib.Core.Path.{subst}
use adversarial_agent_runtim.Prelude.{
  String, ◌≡◌, refl, true, ◌||◌, none, some, List, [], ◌∷◌, All, arith, ◌==◌, eq_iff, if◌then◌else◌,
  is_some, inl, inr, Bool-cases, Option-cases, sym,
}
use adversarial_agent_runtim.Runtime.Config.Values.{ConfigValue, Mapping, lookup, put, merge, among}

pub among-All :
    (P : String → Type 0) (ks : List String) (k : String) → All P ks → among ks k ≡ true → P k
among-All P [] k q h = cc
among-All P (j ∷ ks) k (p, q) h = elim (Bool-cases (j == k)) [
  | inl same ↦ subst P ((eq_iff j k).0 same) p
  | inr apart ↦ among-All P ks k q (ground (arith, h, apart))
]

-- No key stands twice.
abbrev pub IsDict : Mapping → Type 0
IsDict [] = Unit
IsDict ((k, v) ∷ rest) = (lookup k rest ≡ none) × IsDict rest

pub lookup-put :
    (j k : String) (v : ConfigValue) (m : Mapping)
    → lookup j (put k v m) ≡ (if k == j then some v else lookup j m)
unfolding lookup put
lookup-put j k v [] = refl
lookup-put j k v ((i, w) ∷ m) =
    ground (arith, lookup-put j k v m, eq_iff i k, eq_iff i j, eq_iff k j)

pub put-IsDict : (k : String) (v : ConfigValue) (m : Mapping) → IsDict m → IsDict (put k v m)
unfolding lookup put
put-IsDict k v [] h = (refl, tt)
put-IsDict k v ((i, w) ∷ m) h =
    ground (arith, put-IsDict k v m, lookup-put i k v m, eq_iff i k, eq_iff k i)

pub put-has :
    (j k : String) (v : ConfigValue) (m : Mapping)
    → (k == j || is_some (lookup j m)) ≡ true
    → is_some (lookup j (put k v m)) ≡ true
put-has j k v m h = ground (arith, lookup-put j k v m, h)

pub lookup-merge :
    (j : String) (raw overrides : Mapping)
    → IsDict overrides
    → lookup j (merge raw overrides)
      ≡ (elim (lookup j overrides) [ none ↦ lookup j raw | some v ↦ some v ])
unfolding lookup merge
lookup-merge j raw [] h = refl
lookup-merge j raw ((k, v) ∷ rest) (h, hs) =
    ground (arith, lookup-merge j (put k v raw) rest hs, lookup-put j k v raw, h, eq_iff k j)

module _ (P : String → ConfigValue → Type 0) where
  -- Each key that is there has a value with the property.
  abbrev pub Holds : Mapping → Type 0
  Holds m = (k : String) (v : ConfigValue) → lookup k m ≡ some v → P k v

  pub put-Holds : (k : String) (v : ConfigValue) (m : Mapping) → P k v → Holds m → Holds (put k v m)
  put-Holds k v m new old j w found = elim (Bool-cases (k == j)) [
    | inl same ↦ at_key ((eq_iff k j).0 same) (written same)
    | inr apart ↦ old j w (ground (arith, apart, lookup-put j k v m, found))
  ]
    where
      written : (k == j) ≡ true → v ≡ w
      written same = ground (arith, same, lookup-put j k v m, found)

      at_key : k ≡ j → v ≡ w → P j w
      at_key e e' = rw (sym e, sym e') new

  pub merge-Holds :
      (raw overrides : Mapping)
      → IsDict overrides
      → Holds raw
      → Holds overrides
      → Holds (merge raw overrides)
  merge-Holds raw overrides dict old new j v found = elim (Option-cases (lookup j overrides)) [
    | inl missing ↦ old j v (ground (arith, missing, lookup-merge j raw overrides dict, found))
    | inr (w, there) ↦ new j v (ground (arith, there, lookup-merge j raw overrides dict, found))
  ]
