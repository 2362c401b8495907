-- ===== src/Text.antt =====
-- The `str` methods of Python that the program uses, on native texts. What `lower`
-- makes is only searched, so it is a list of code points.
mod Tests
use Prim.Native.Char.{Char, code}
use Prim.Native.String
use Prim.Native.String.{◌++◌}
use mathlib.Core.List.{◌++◌ as append}
use adversarial_agent_runtim.Prelude.{
  ℕ, zero, suc, ◌+◌, ◌-◌, ◌/◌, ◌%◌, String, Bool, true, false, ◌&&◌, ◌||◌, List, [], ◌∷◌, ◌==◌, eqb,
  ltb, leb, if◌then◌else◌,
}

-- `str.isspace`, the separators of `split()` and what `strip()` takes off.
unfoldable pub is_space : ℕ → Bool
is_space c =
    (leb 9 c && leb c 13)
    || (leb 28 c && leb c 32)
    || eqb c 133
    || eqb c 160
    || eqb c 5760
    || (leb 8192 c && leb c 8202)
    || eqb c 8232
    || eqb c 8233
    || eqb c 8239
    || eqb c 8287
    || eqb c 12288

-- `len(text)`.
unfoldable pub text_length : String → ℕ
text_length String.[] = 0
text_length (String.◌∷◌ c s) = suc (text_length s)

-- `text[:n]`.
unfoldable pub text_take : ℕ → String → String
text_take zero s = ""
text_take (suc n) String.[] = ""
text_take (suc n) (String.◌∷◌ c s) = String.◌∷◌ c (text_take n s)

-- The word that a text begins with, and the words behind it.
unfoldable pub words : String → String × List String
unfolding is_space
words String.[] = ("", [])
words (String.◌∷◌ c s) =
    let (word, rest) = words s in
    if is_space (code c)
    then ("", if word == "" then rest else word ∷ rest)
    else (String.◌∷◌ c word, rest)

-- `text.split()`.
unfoldable pub split : String → List String
unfolding words
split s = let (word, rest) = words s in if word == "" then rest else word ∷ rest

-- `separator.join(parts)`.
unfoldable pub join : String → List String → String
join separator [] = ""
join separator (part ∷ []) = part
join separator (part ∷ rest) = part ++ separator ++ join separator rest

-- `text.rstrip()`.
unfoldable pub rstrip : String → String
unfolding is_space
rstrip String.[] = ""
rstrip (String.◌∷◌ c s) =
    let rest = rstrip s in if rest == "" && is_space (code c) then "" else String.◌∷◌ c rest

-- `text.startswith(prefix)`.
unfoldable pub has_prefix : String → String → Bool
has_prefix String.[] s = true
has_prefix (String.◌∷◌ d p) String.[] = false
has_prefix (String.◌∷◌ d p) (String.◌∷◌ c s) = eqb (code c) (code d) && has_prefix p s

unfoldable pub codes : String → List ℕ
codes String.[] = []
codes (String.◌∷◌ c s) = code c ∷ codes s

-- One code point in lower case: `i` and a dot above for U+0130, `k` for the sign of kelvin.
lower_code : ℕ → List ℕ
lower_code c =
    if leb 65 c && leb c 90
    then (c + 32) ∷ []
    else if eqb c 8490
    then 107 ∷ []
    else if eqb c 304
    then 105 ∷ 775 ∷ []
    else c ∷ []

-- `text.lower()`, where it is searched for ASCII texts: the other letters beyond ASCII, which have
-- lower case forms beyond ASCII, are left as they are.
unfoldable pub lower : String → List ℕ
unfolding lower_code
lower String.[] = []
lower (String.◌∷◌ c s) = append (lower_code (code c)) (lower s)

unfoldable pub starts : List ℕ → List ℕ → Bool
starts [] cs = true
starts (d ∷ ds) [] = false
starts (d ∷ ds) (c ∷ cs) = eqb c d && starts ds cs

-- `part in text`.
unfoldable pub occurs : List ℕ → List ℕ → Bool
unfolding starts
occurs part [] = starts part []
occurs part (c ∷ cs) = starts part (c ∷ cs) || occurs part cs

digit : ℕ → String
digit d =
    if eqb d 0
    then "0"
    else if eqb d 1
    then "1"
    else if eqb d 2
    then "2"
    else if eqb d 3
    then "3"
    else if eqb d 4
    then "4"
    else if eqb d 5
    then "5"
    else if eqb d 6
    then "6"
    else if eqb d 7
    then "7"
    else if eqb d 8
    then "8"
    else "9"

-- Fuel above the number is more than its digits.
decimal_from : ℕ → ℕ → String
decimal_from zero n = ""
decimal_from (suc fuel) n =
    let front = decimal_from fuel (n / 10) in if ltb n 10 then digit n else front ++ digit (n % 10)

-- `str(n)`.
unfoldable pub decimal : ℕ → String
unfolding decimal_from digit
decimal n = decimal_from (suc n) n
