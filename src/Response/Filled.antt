-- ===== src/Response/Filled.antt =====
-- The names and ids of tool calls, agent/response.py.
use Prim.Native.String.{◌++◌}
use text.Mathlib.TextLemmas.{cons-append}
use adversarial_agent_runtim.Prelude.{
  ℕ, String, true, false, ◌≡◌, ◌≢◌, Option, none, some, eq_iff, arith, ap,
}
use adversarial_agent_runtim.Json.{Json, null, bool, int, float, str, list, dict, Fields}
use adversarial_agent_runtim.Text.{decimal, has_prefix}
use adversarial_agent_runtim.Response.ToolCalls.{valid_name, call_name, call_id}

step_id-filled : (x : String) → "step-" ++ x ≢ ""
unfolding has_prefix
step_id-filled x empty =
    let s_first : has_prefix "s" ("step-" ++ x) ≡ true = rw cons-append in
    let none_first : has_prefix "s" ("step-" ++ x) ≡ false = ap (has_prefix "s") empty in cc

pub call_id-filled : (step index : ℕ) (o : Option Json) → call_id step index o ≢ ""
unfolding call_id
call_id-filled step index (some (str s)) = λ empty.
    ground (arith, eq_iff s "", empty, step_id-filled (decimal step ++ "-tool-" ++ decimal index))
call_id-filled step index none = step_id-filled _
call_id-filled step index (some null) = step_id-filled _
call_id-filled step index (some (bool b)) = step_id-filled _
call_id-filled step index (some (int i)) = step_id-filled _
call_id-filled step index (some (float r)) = step_id-filled _
call_id-filled step index (some (list vs)) = step_id-filled _
call_id-filled step index (some (dict d)) = step_id-filled _

valid_name-filled : (v : Json) (name : String) → valid_name v ≡ some name → name ≢ ""
unfolding valid_name
valid_name-filled (str s) name named = λ empty. ground (arith, eq_iff s "", named, empty)
valid_name-filled null name named = cc
valid_name-filled (bool b) name named = cc
valid_name-filled (int i) name named = cc
valid_name-filled (float r) name named = cc
valid_name-filled (list vs) name named = cc
valid_name-filled (dict d) name named = cc

pub call_name-filled : (d : Fields) (name : String) → call_name d ≡ some name → name ≢ ""
unfolding call_name
call_name-filled d name named = valid_name-filled _ name named
