-- ===== src/Response/Repair.antt =====
-- The repair of agent/response.py: `re.sub(r",\s*([}\]])", r"\1", text)`.
use Prim.Native.Char.{code}
use adversarial_agent_runtim.Prelude.{ℕ, String, Bool, false, ◌&&◌, ◌||◌, eqb, if◌then◌else◌}
use adversarial_agent_runtim.Text.{is_space}

abbrev pub is_bracket : ℕ → Bool
is_bracket c = eqb c 125 || eqb c 93

-- White space and then a closing bracket stand here.
unfoldable pub closes : String → Bool
closes String.[] = false
closes (String.◌∷◌ c s) =
    let rest = closes s in if is_space (code c) then rest else is_bracket (code c)

-- A comma that a closing bracket follows is left out with the white space behind it, in which the
-- flag says that the loop is.
unfoldable pub repair_from : Bool → String → String
repair_from skipping String.[] = ""
repair_from skipping (String.◌∷◌ c s) =
    let skipped = if skipping then is_space (code c) else (eqb (code c) 44 && closes s) in
    let rest = repair_from skipped s in if skipped then rest else String.◌∷◌ c rest

unfoldable pub repair : String → String
unfolding repair_from
repair s = repair_from false s
