-- ===== src/Codec.antt =====
-- The library calls of the program that it treats as black boxes: `json.dumps` with sorted keys
-- (`stable_json` of agent/runtime.py), `hashlib.sha256(...).hexdigest()` and `str` of a value that
-- is no text, and `str.lower` with its tables for letters beyond ASCII. They are a parameter of the definitions that use them.
use adversarial_agent_runtim.Prelude.{String, Option, none, some}
use adversarial_agent_runtim.Json.{Json, str}
use adversarial_agent_runtim.Errors.{Result}

pub record Codec : Type 0 where
  pub stable_json : Json → String
  pub sha256 : String → String
  pub repr : Json → String
  pub lower : String → String

-- `str(value)`.
abbrev pub to_text : Codec → Json → String
to_text codec (str s) = s
to_text codec value = codec.repr value

-- `str(d.get(key, default))`.
abbrev pub text_or : Codec → Option Json → String → String
text_or codec none default = default
text_or codec (some value) default = to_text codec value

-- `json.loads` where a JSONDecodeError is caught: `none` for that error. Other errors, as on a number
-- with too many digits or on too deep a nesting, are raised.
abbrev pub JsonLoads : Type 0
JsonLoads = String → Result (Option Json)
