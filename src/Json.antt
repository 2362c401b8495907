-- ===== src/Json.antt =====
-- The values that the program exchanges as JSON (`dict[str, Any]` and what `json.loads` returns):
-- the data type and Python's operations on such values. Floats are kept as the text of their
-- `repr`, since the program computes with none that comes from JSON.
use adversarial_agent_runtim.Prelude.{
  ℕ, String, Bool, true, false, not, ◌||◌, Option, none, some, List, [], ◌∷◌, eqb, ◌==◌,
  if◌then◌else◌,
}

-- A Python `int`; `negsuc n` is -(n + 1).
pub data ℤ : Type 0 where
  pos : ℕ → ℤ
  negsuc : ℕ → ℤ

mutual
  pub data Json : Type 0 where
    null : Json
    bool : Bool → Json
    int : ℤ → Json
    float : String → Json
    str : String → Json
    list : Items → Json
    dict : Fields → Json

  pub data Items : Type 0 where
    nil : Items
    cons : Json → Items → Items

  pub data Fields : Type 0 where
    end : Fields
    field : String → Json → Fields → Fields

abbrev pub num : ℕ → Json
num n = int (pos n)

abbrev pub opt_str : Option String → Json
opt_str none = null
opt_str (some s) = str s

-- `{k: v, ...}` and `[v, ...]`.
abbrev pub fields : List (String × Json) → Fields
fields [] = end
fields ((k, v) ∷ rest) = field k v (fields rest)

abbrev pub items : List Json → Items
items [] = nil
items (v ∷ rest) = cons v (items rest)

abbrev pub to_list : Items → List Json
to_list nil = []
to_list (cons v rest) = v ∷ to_list rest

abbrev pub object : List (String × Json) → Json
object entries = dict (fields entries)

-- `d.get(key)` on a dict, with `none` for a missing key.
abbrev pub get_field : String → Fields → Option Json
get_field k end = none
get_field k (field j v rest) = if j == k then some v else get_field k rest

-- The same on any value; what is no dict has no keys.
abbrev pub get : String → Json → Option Json
get k (dict d) = get_field k d
get k _ = none

-- `bool(value)`.
abbrev pub truthy : Json → Bool
truthy null = false
truthy (bool b) = b
truthy (int (pos n)) = not (eqb n 0)
truthy (int (negsuc n)) = true
truthy (float r) = not (r == "0.0" || r == "-0.0")
truthy (str s) = not (s == "")
truthy (list nil) = false
truthy (list (cons v rest)) = true
truthy (dict end) = false
truthy (dict (field k v rest)) = true
