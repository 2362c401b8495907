-- ===== src/Trace.antt =====
-- agent/run.py, `TraceWriter`, `TraceReader` and `Replayer`, on the text of a trace file. `loads` is
-- `json.loads`, with the message of a JSONDecodeError; it gets a line without its line break, which
-- is white space to it.
pub mod Format
pub mod Sorted
pub mod Lines
mod Tests
use Prim.Native.Char.{code}
use Prim.Native.String
use Prim.Native.String.{◌++◌}
use adversarial_agent_runtim.Prelude.{
  ℕ, suc, String, Bool, true, false, not, ◌||◌, ◌&&◌, Option, none, some, List, [], ◌∷◌, ◌==◌, eqb,
  if◌then◌else◌, map,
}
use adversarial_agent_runtim.Json.{Json, null, str, num, float, dict, Fields, fields}
use adversarial_agent_runtim.Errors.{Error, Result, ok, raise, raised, replay_error, ◌>>=◌}
use adversarial_agent_runtim.Codec.{Codec}
use adversarial_agent_runtim.Text.{decimal, split}
use adversarial_agent_runtim.Database.EventLog.{or_empty}

abbrev pub opt_step : Option ℕ → Json
opt_step none = null
opt_step (some n) = num n

-- `TraceEvent(...).to_dict()`; `now` is the text of the time.
abbrev pub trace_event : String → String → Json → Option ℕ → String → Fields
trace_event run_id event_type payload step now = fields (
    ("run_id", str run_id)
    ∷ ("event_type", str event_type)
    ∷ ("payload", or_empty payload)
    ∷ ("step", opt_step step)
    ∷ ("created_at", float now)
    ∷ [])

-- `write`, on the text of the file.
unfoldable pub write : Codec → Fields → String → String
write codec event text = text ++ (codec.stable_json (dict event) ++ "\n")

-- `log_trace`.
unfoldable pub log_trace : Codec → String → String → Json → Option ℕ → String → String → String
log_trace codec run_id event_type payload step now text =
    write codec (trace_event run_id event_type payload step now) text

-- The events written one after another.
unfoldable pub write_all : Codec → List Fields → String → String
write_all codec [] text = text
write_all codec (event ∷ events) text = write_all codec events (write codec event text)

-- The lines of a text file: a line feed, a carriage return, or both end a line. The Boolean tells
-- whether a carriage return came just before.
unfoldable pub lines_from : Bool → String → String × List String
lines_from after_return String.[] = ("", [])
lines_from after_return (String.◌∷◌ c s) =
    let (line, rest) = lines_from (eqb (code c) 13) s in
    if eqb (code c) 10 && after_return
    then (line, rest)
    else if eqb (code c) 10 || eqb (code c) 13
    then ("", line ∷ rest)
    else (String.◌∷◌ c line, rest)

-- A last line that is empty is none, and reading skips it in any case.
unfoldable pub lines : String → List String
unfolding lines_from
lines text = let (line, rest) = lines_from false text in line ∷ rest

-- `not line.strip()`.
unfoldable pub is_blank : String → Bool
is_blank line = elim (split line) [ [] ↦ true | word ∷ words ↦ false ]

unfoldable pub malformed : String → ℕ → String → Result Fields
malformed run_id number why =
    raise replay_error
      ("Malformed trace line " ++ decimal number ++ " for run_id " ++ run_id ++ ": " ++ why)

module _ (loads : String → Result Json) (run_id : String) where
  -- The event of one line.
  unfoldable pub as_event : ℕ → Result Json → Result Fields
  unfolding malformed
  as_event number (ok (dict d)) = ok d
  as_event number (ok other) = malformed run_id number "event must be an object"
  as_event number (raised e) = malformed run_id number e.message

  unfoldable pub read_line : ℕ → String → Result Fields
  unfolding as_event
  read_line number line = as_event number (loads line)

  -- The events of the lines, from this line number on.
  unfoldable pub read_lines : ℕ → List String → Result (List Fields)
  read_lines number [] = ok []
  read_lines number (line ∷ rest) =
      if is_blank line
      then read_lines (suc number) rest
      else read_line number line
        >>= (λ event. read_lines (suc number) rest >>= (λ events. ok (event ∷ events)))

  -- `list(reader.read(run_id))`.
  unfoldable pub read : String → Result (List Fields)
  read text = read_lines 1 (lines text)
