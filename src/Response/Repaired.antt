-- ===== src/Response/Repaired.antt =====
-- The repair of malformed arguments, agent/response.py.
use Prim.Native.Char.{code}
use adversarial_agent_runtim.Prelude.{
  ℕ, String, Bool, true, false, ◌≡◌, refl, List, [], ◌∷◌, arith, ◌||◌, eqb, if◌then◌else◌,
}
use adversarial_agent_runtim.Text.{is_space}
use adversarial_agent_runtim.Response.Repair.{repair_from, repair}

-- The characters of a text but its commas and its white space.
abbrev pub solid : String → List ℕ
solid String.[] = []
solid (String.◌∷◌ c s) =
    let rest = solid s in if eqb (code c) 44 || is_space (code c) then rest else code c ∷ rest

solid-repair_from : (skipping : Bool) (s : String) → solid (repair_from skipping s) ≡ solid s
unfolding repair_from
solid-repair_from skipping String.[] = refl
solid-repair_from true (String.◌∷◌ c s) =
    ground (arith, solid-repair_from true s, solid-repair_from false s)
solid-repair_from false (String.◌∷◌ c s) =
    ground (arith, solid-repair_from true s, solid-repair_from false s)

-- The repair takes nothing out of a text but commas and white space, and puts nothing in.
pub solid-repair : (s : String) → solid (repair s) ≡ solid s
unfolding repair
solid-repair s = solid-repair_from false s
