-- ===== src/Trace/Lines.antt =====
-- A trace that is written and read back, agent/run.py.
use Prim.Native.Char.{Char, code}
use Prim.Native.String.{◌++◌}
use text.Mathlib.TextLemmas.{nil-append, cons-append, append-nil, append_assoc}
use mathlib.Core.List.{◌++◌ as append}
use adversarial_agent_runtim.Prelude.{
  ℕ, suc, String, ◌≡◌, refl, sym, ap, ◌∙◌, Bool, true, false, not, ◌||◌, ◌&&◌, List, [], ◌∷◌, eqb,
  arith, map, All,
}
use adversarial_agent_runtim.Json.{Json, dict, Fields, get_field}
use adversarial_agent_runtim.Errors.{Result, ok}
use adversarial_agent_runtim.Codec.{Codec}
use adversarial_agent_runtim.Text.{split}
use adversarial_agent_runtim.Trace.Sorted.{sort_fields, sorted_value, get_field-sort_fields}
use adversarial_agent_runtim.Trace.{
  write, write_all, lines_from, lines, is_blank, as_event, read_line, read_lines, read,
}

-- The text has no line break.
unfoldable pub one_line : String → Bool
one_line String.[] = true
one_line (String.◌∷◌ c s) = not (eqb (code c) 10 || eqb (code c) 13) && one_line s

plain_char :
    (c : Char) (s t : String)
    → one_line (String.◌∷◌ c s) ≡ true
    → lines_from false (String.◌∷◌ c (s ++ t))
      ≡ (String.◌∷◌ c (lines_from false (s ++ t)).0, (lines_from false (s ++ t)).1)
unfolding lines_from one_line
plain_char c s t h =
    let no_feed : eqb (code c) 10 ≡ false = ground (arith, h) in
    let no_return : eqb (code c) 13 ≡ false = ground (arith, h) in rw (no_feed, no_return)

lines_from-append :
    (s t : String)
    → one_line s ≡ true
    → lines_from false (s ++ ("\n" ++ t)) ≡ (s, (lines_from false t).0 ∷ (lines_from false t).1)
unfolding lines_from one_line
lines_from-append String.[] t h = ap (lines_from false) (
    nil-append ("\n" ++ t)
    ∙ cons-append "\n" "" t
    ∙ ap (λ rest. String.◌∷◌ "\n" rest) (nil-append t))
lines_from-append (String.◌∷◌ c s) t h =
    ap (lines_from false) (cons-append c s ("\n" ++ t))
    ∙ plain_char c s ("\n" ++ t) h
    ∙ ap (λ (x : String × List String). (String.◌∷◌ c x.0, x.1))
        (lines_from-append s t (ground (arith, h)))

module _ (codec : Codec) where
  -- The text that the events make.
  text_of : List Fields → String
  text_of [] = ""
  text_of (event ∷ events) = codec.stable_json (dict event) ++ ("\n" ++ text_of events)

  write_all-text_of :
      (events : List Fields) (text : String) → write_all codec events text ≡ text ++ text_of events
  unfolding write_all write text_of
  write_all-text_of [] text = sym (append-nil text)
  write_all-text_of (event ∷ events) text =
      write_all-text_of events _
      ∙ append_assoc text (codec.stable_json (dict event) ++ "\n") (text_of events)
      ∙ ap (λ s. text ++ s) (append_assoc (codec.stable_json (dict event)) "\n" (text_of events))

  -- What `json.dumps` with sorted keys and `json.loads` promise of a dict: one line of text that is
  -- not blank, and the dict back, with its keys and those of the dicts in it in order.
  pub record RoundTrips (loads : String → Result Json) (d : Fields) : Type 0 where
    pub is_line : one_line (codec.stable_json (dict d)) ≡ true
    pub has_text : is_blank (codec.stable_json (dict d)) ≡ false
    pub loads_back : loads (codec.stable_json (dict d)) ≡ ok (dict (sort_fields d))

  json_lines : List Fields → List String
  json_lines events = map (λ event. codec.stable_json (dict event)) events

  -- The value that an event has under a key, in the event that is read back.
  abbrev pub KeepsFields : Fields → Type 0
  KeepsFields event =
      (k : String) → get_field k (sort_fields event) ≡ sorted_value (get_field k event)

  keeps_All : (events : List Fields) → All KeepsFields events
  keeps_All [] = tt
  keeps_All (event ∷ events) = ((λ k. get_field-sort_fields k event), keeps_All events)

  module _ (loads : String → Result Json) (run_id : String) where
    lines-text_of :
        (events : List Fields)
        → All (RoundTrips loads) events
        → lines (text_of events) ≡ append (json_lines events) ("" ∷ [])
    unfolding lines text_of json_lines lines_from
    lines-text_of [] laws = refl
    lines-text_of (event ∷ events) (law, laws) =
        ap (λ (x : String × List String). x.0 ∷ x.1)
          (lines_from-append (codec.stable_json (dict event)) (text_of events) law.is_line)
        ∙ ap (λ rest. codec.stable_json (dict event) ∷ rest) (lines-text_of events laws)

    read_lines-json_lines :
        (number : ℕ) (events : List Fields)
        → All (RoundTrips loads) events
        → read_lines loads run_id number (append (json_lines events) ("" ∷ []))
          ≡ ok (map sort_fields events)
    unfolding read_lines json_lines read_line as_event is_blank split
    read_lines-json_lines number [] laws = refl
    read_lines-json_lines number (event ∷ events) (law, laws) =
        rw (law.has_text, law.loads_back, read_lines-json_lines (suc number) events laws)

    -- Where `json.dumps` with sorted keys makes one line of each event and `json.loads` reads it back:
    -- reading a trace gives the events that were written, in their order, with their keys sorted, and
    -- under each key an event has the value that was written, with the keys of its dicts sorted.
    pub read-write_all :
        (events : List Fields)
        → All (RoundTrips loads) events
        → (read loads run_id (write_all codec events "") ≡ ok (map sort_fields events))
          × All KeepsFields events
    unfolding read
    read-write_all events laws = (
      ap (λ text. read_lines loads run_id 1 (lines text))
            (write_all-text_of events "" ∙ nil-append (text_of events))
          ∙ ap (read_lines loads run_id 1) (lines-text_of events laws)
          ∙ read_lines-json_lines 1 events laws,
      keeps_All events,
    )
