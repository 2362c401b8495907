-- ===== src/Tokenizer.antt =====
-- mockllm/tokenizer.py: the token counter. `[A-Za-z0-9_]+` matches a run of word characters, and
-- `[^\sA-Za-z0-9_]` each other character that is no ASCII space.
mod Tests
use Prim.Native.Char.{code}
use Prim.Native.String
use adversarial_agent_runtim.Prelude.{
  ℕ, suc, ◌+◌, String, ◌≡◌, refl, Bool, true, false, ◌&&◌, ◌||◌, List, [], ◌∷◌, eqb, leb,
  if◌then◌else◌,
}

is_word : ℕ → Bool
is_word c =
    (leb b'A' c && leb c b'Z')
    || (leb b'a' c && leb c b'z')
    || (leb b'0' c && leb c b'9')
    || eqb c b'_'

is_ascii_space : ℕ → Bool
is_ascii_space c = (leb 9 c && leb c 13) || eqb c 32

-- The matches from here on, where `in_word` tells that the character before is of a run.
matches : Bool → String → ℕ
matches in_word String.[] = 0
matches in_word (String.◌∷◌ c s) =
    let rest = matches (is_word (code c)) s in
    if is_word (code c)
    then (if in_word then rest else suc rest)
    else (if is_ascii_space (code c) then rest else suc rest)

-- `len(TOKEN_PATTERN.findall(text))`.
unfoldable pub count_tokens : String → ℕ
unfolding matches is_word is_ascii_space
count_tokens text = matches false text
