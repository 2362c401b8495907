-- ===== src/Trace/Sorted.antt =====
-- A value whose dicts have their keys in order, as `json.dumps(..., sort_keys=True)` writes them in
-- `stable_json` of agent/runtime.py.
use adversarial_agent_runtim.Prelude.{
  ℕ, String, ◌≡◌, refl, false, Option, none, some, List, [], ◌∷◌, arith, ◌==◌, eq_iff,
  if◌then◌else◌, Bool-cases, inl, inr,
}
use adversarial_agent_runtim.Json.{
  Json, list, dict, Items, nil, cons, Fields, end, field, get_field,
}
use adversarial_agent_runtim.Text.{codes}
use adversarial_agent_runtim.Runtime.Config.Values.{comes_before}

unfoldable pub insert_field : String → Json → Fields → Fields
insert_field k v end = field k v end
insert_field k v (field j w rest) =
    let later = insert_field k v rest in
    if comes_before (codes j) (codes k) then field j w later else field k v (field j w rest)

mutual
  pub sort_value : Json → Json
  sort_value (list vs) = list (sort_items vs)
  sort_value (dict d) = dict (sort_fields d)
  sort_value v = v

  sort_items : Items → Items
  sort_items nil = nil
  sort_items (cons v rest) = cons (sort_value v) (sort_items rest)

  pub sort_fields : Fields → Fields
  sort_fields end = end
  sort_fields (field k v rest) = insert_field k (sort_value v) (sort_fields rest)

comes_before_irrefl : (cs : List ℕ) → comes_before cs cs ≡ false
unfolding comes_before
comes_before_irrefl [] = refl
comes_before_irrefl (c ∷ cs) = ground (arith, comes_before_irrefl cs)

get_field-insert_field :
    (i k : String) (v : Json) (d : Fields)
    → get_field i (insert_field k v d) ≡ (if k == i then some v else get_field i d)
unfolding insert_field
get_field-insert_field i k v end = refl
get_field-insert_field i k v (field j w rest) = ground (
  arith,
  get_field-insert_field i k v rest,
  comes_before_irrefl (codes k),
  eq_iff j i,
  eq_iff k i,
  eq_iff j k,
)

-- The value of a key in the sorted dict is its value in the dict, with its dicts sorted.
abbrev pub sorted_value : Option Json → Option Json
sorted_value none = none
sorted_value (some v) = some (sort_value v)

pub get_field-sort_fields :
    (k : String) (d : Fields) → get_field k (sort_fields d) ≡ sorted_value (get_field k d)
unfolding sort_fields
get_field-sort_fields k end = refl
get_field-sort_fields k (field j v rest) = elim (Bool-cases (j == k)) [
  | inl same ↦ ground (arith, same, get_field-insert_field k j (sort_value v) (sort_fields rest))
  | inr apart ↦ ground (
    arith,
    apart,
    get_field-insert_field k j (sort_value v) (sort_fields rest),
    get_field-sort_fields k rest,
  )
]
