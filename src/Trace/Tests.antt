-- ===== src/Trace/Tests.antt =====
-- The theorem on traces at two events, and a line of a replay.
use adversarial_agent_runtim.Prelude.{
  String, Bool, Option, ◌≡◌, refl, true, false, some, [], ◌∷◌, All, map, ◌==◌, if◌then◌else◌,
}
use adversarial_agent_runtim.Json.{get_field, str, bool, Json, dict, num, Fields, object}
use adversarial_agent_runtim.Errors.{Result, ok}
use adversarial_agent_runtim.Codec.{Codec}
use adversarial_agent_runtim.Text.{split, words, is_space}
use adversarial_agent_runtim.Trace.{trace_event, write_all, is_blank, read}
use adversarial_agent_runtim.Trace.Format.{details, format_replay_event}
use adversarial_agent_runtim.Trace.Sorted.{sort_fields}
use adversarial_agent_runtim.Trace.Lines.{one_line, RoundTrips, KeepsFields, read-write_all}

abbrev asked : Fields
asked = trace_event "r" "llm_request" (object (("tokens", num 7) ∷ [])) (some 2) "1.0"

abbrev answered : Fields
answered = trace_event "r" "llm_response" (object (("ok", bool true) ∷ [])) (some 2) "1.5"

-- The two events are written as `"asked"` and `"answered"`.
abbrev written : Json → String
written (dict d) =
    if is_text (get_field "event_type" d) "llm_request" then "\"asked\"" else "\"answered\""
  where
    is_text : Option Json → String → Bool
    is_text (some (str s)) t = s == t
    is_text other t = false
written other = "2"

abbrev plain_codec : Codec
plain_codec = record { stable_json = written; sha256 = λ s. s; repr = λ v. "2"; lower = λ s. s }

abbrev loads : String → Result Json
loads s =
    if s == "\"asked\"" then ok (dict (sort_fields asked)) else ok (dict (sort_fields answered))

laws : All (RoundTrips plain_codec loads) (asked ∷ answered ∷ [])
unfolding one_line is_blank split words is_space
laws = (
  record { is_line = refl; has_text = refl; loads_back = refl },
  (record { is_line = refl; has_text = refl; loads_back = refl }, tt),
)

read-write_all_example :
    (read loads "r" (write_all plain_codec (asked ∷ answered ∷ []) "")
      ≡ ok (map sort_fields (asked ∷ answered ∷ [])))
    × All (KeepsFields plain_codec) (asked ∷ answered ∷ [])
read-write_all_example = read-write_all plain_codec loads "r" (asked ∷ answered ∷ []) laws

format_runs : format_replay_event plain_codec asked ≡ "step 2: llm_request messages=2 tokens=2"
unfolding format_replay_event details
format_runs = refl
