-- ===== src/Loop/Targets.antt =====
-- `_failed_tool_targets` and `_interesting_error_parts` of agent/runtime.py. `path_name` is
-- `Path(token).name`.
use Prim.Native.Char.{code}
use Prim.Native.String
use adversarial_agent_runtim.Prelude.{
  ℕ, String, Bool, not, ◌&&◌, ◌||◌, Option, some, List, [], ◌∷◌, ◌++◌, ◌==◌, any, eqb, ltb, keep,
  if◌then◌else◌,
}
use adversarial_agent_runtim.Json.{Json, str, dict, Fields, get_field}
use adversarial_agent_runtim.Codec.{Codec, text_or}
use adversarial_agent_runtim.Text.{text_length, text_take, split, codes, occurs}

-- `text.replace(a, b)` for single characters.
replace_code : ℕ → String → String → String
replace_code a b String.[] = ""
replace_code a b (String.◌∷◌ c s) =
    let rest = replace_code a b s in
    if eqb (code c) a then String.◌++◌ b rest else String.◌∷◌ c rest

-- The characters of `" ,;:()[]{}"`.
stripped : ℕ → Bool
stripped c = any (λ d. eqb c d) (32 ∷ 44 ∷ 59 ∷ 58 ∷ 40 ∷ 41 ∷ 91 ∷ 93 ∷ 123 ∷ 125 ∷ [])

strip_front : String → String
unfolding stripped
strip_front String.[] = ""
strip_front (String.◌∷◌ c s) =
    let rest = strip_front s in if stripped (code c) then rest else String.◌∷◌ c s

strip_back : String → String
unfolding stripped
strip_back String.[] = ""
strip_back (String.◌∷◌ c s) =
    let rest = strip_back s in if rest == "" && stripped (code c) then "" else String.◌∷◌ c rest

-- `raw_token.strip(" ,;:()[]{}")`.
unfoldable pub strip_token : String → String
unfolding strip_front strip_back
strip_token token = strip_back (strip_front token)

-- `part in text`.
abbrev pub contains : String → String → Bool
contains part text = occurs (codes part) (codes text)

abbrev pub nonempty : List String → List String
nonempty parts = keep (λ part. not (part == "")) parts

module _ (path_name : String → String) where
  -- The parts of one token.
  unfoldable pub token_parts : String → List String
  token_parts token =
      if token == ""
      then []
      else nonempty ((if contains "/" token then path_name token else "") ∷ [])
        ++ (if contains "." token && ltb 2 (text_length token) then token ∷ [] else [])

  parts_of : List String → List String
  unfolding token_parts
  parts_of [] = []
  parts_of (raw ∷ tokens) = token_parts (strip_token raw) ++ parts_of tokens

  -- `_interesting_error_parts`.
  unfoldable pub interesting_error_parts : String → List String
  unfolding parts_of replace_code
  interesting_error_parts error = parts_of (split (replace_code 39 " " (replace_code 34 " " error)))

  -- The arguments with these names, where they are texts.
  unfoldable pub text_arguments : List String → Fields → List String
  text_arguments [] arguments = []
  text_arguments (name ∷ names) arguments = elim (get_field name arguments) [
    | some (str s) ↦ s ∷ text_arguments names arguments
    | _ ↦ text_arguments names arguments
  ]

  -- What the tool of the failed call worked on.
  unfoldable pub argument_targets : String → Fields → List String
  argument_targets tool_name arguments =
      if tool_name == "read_file" || tool_name == "write_file"
      then text_arguments ("path" ∷ []) arguments
      else if tool_name == "http_get"
      then text_arguments ("url" ∷ []) arguments
      else if tool_name == "send_email"
      then text_arguments ("to" ∷ "subject" ∷ "body" ∷ []) arguments
      else if tool_name == "run_python"
      then clipped (text_arguments ("code" ∷ []) arguments)
      else []
    where
      clipped : List String → List String
      clipped [] = []
      clipped (s ∷ rest) = text_take 80 s ∷ clipped rest

  abbrev pub error_targets : Option Json → List String
  error_targets (some (str error)) = nonempty (interesting_error_parts error)
  error_targets other = []

  -- `list(dict.fromkeys(values))`.
  unfoldable pub without_repeats : List String → List String
  without_repeats [] = []
  without_repeats (s ∷ rest) = s ∷ keep (λ t. not (t == s)) (without_repeats rest)

  -- `_failed_tool_targets`, with the arguments of the call.
  unfoldable pub failed_tool_targets : Codec → Json → Fields → List String
  failed_tool_targets codec (dict result) arguments = without_repeats (
      argument_targets (text_or codec (get_field "tool_name" result) "") arguments
      ++ error_targets (get_field "error" result))
  failed_tool_targets codec other arguments = []
