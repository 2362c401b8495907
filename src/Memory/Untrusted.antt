-- ===== src/Memory/Untrusted.antt =====
-- Tool results in agent/message.py: the summary of them, and the mark that they leave.
use adversarial_agent_runtim.Prelude.{
  ◌&&◌, not, ℕ, zero, suc, String, ◌≡◌, refl, inl, inr, Bool-cases, ap, Bool, true, false, ◌||◌,
  List, [], ◌∷◌, arith, ◌==◌, eq_iff, if◌then◌else◌, length, take, map, any,
}
use adversarial_agent_runtim.Codec.{Codec}
use adversarial_agent_runtim.Errors.{builtin, raise, ok, raised, Result-cases}
use adversarial_agent_runtim.Database.Schema.{Event}
use adversarial_agent_runtim.Memory.Message.{MemoryMessage}
use adversarial_agent_runtim.Memory.Window.{summary_line, build_summary, new_window}
use adversarial_agent_runtim.Memory.Manager.{
  MemoryManager, new_manager, preserve_fact, add_user_message, add_assistant_message,
  add_tool_result,
}
use adversarial_agent_runtim.Memory.Context.{
  remember_fields, remember_event, remember_events, from_events, is_read, is_dict,
}

-- Other contents for the tool results, the rest as it is.
abbrev pub replace_tool_content : (String → String) → MemoryMessage → MemoryMessage
replace_tool_content f m =
    if m.role == "tool" then record { role = m.role; content = f m.content } else m

summary_line-replace :
    (f : String → String) (m : MemoryMessage)
    → summary_line (replace_tool_content f m) ≡ summary_line m
unfolding summary_line
summary_line-replace f m = ground arith

lines-replace :
    (f : String → String) (n : ℕ) (ms : List MemoryMessage)
    → map summary_line (take n (map (replace_tool_content f) ms)) ≡ map summary_line (take n ms)
lines-replace f zero ms = refl
lines-replace f (suc n) [] = refl
lines-replace f (suc n) (m ∷ ms) = cc (summary_line-replace f m, lines-replace f n ms)

length-replace :
    (f : String → String) (ms : List MemoryMessage)
    → length (map (replace_tool_content f) ms) ≡ length ms
length-replace f [] = refl
length-replace f (m ∷ ms) = ap suc (length-replace f ms)

-- The summary of compacted messages does not depend on the contents of the tool results among
-- them: whatever a tool returned, the summary is the same.
pub build_summary-replace :
    (f : String → String) (ms : List MemoryMessage)
    → build_summary (map (replace_tool_content f) ms) ≡ build_summary ms
unfolding build_summary
build_summary-replace f ms = rw (lines-replace, length-replace)

abbrev pub is_tool_result : Event → Bool
is_tool_result event = event.event_type == "tool_result"

preserve_fact-flag :
    (role : String) (n : ℕ) (content : String) (m : MemoryManager)
    → (preserve_fact role n content m).has_tool_result_data ≡ m.has_tool_result_data
unfolding preserve_fact
preserve_fact-flag role n content m = ground arith

flag-add_user_message :
    (content : String) (m : MemoryManager)
    → (add_user_message content m).1.has_tool_result_data ≡ m.has_tool_result_data
unfolding add_user_message
flag-add_user_message content m = preserve_fact-flag _ _ _ _

flag-add_assistant_message :
    (content : String) (m : MemoryManager)
    → (add_assistant_message content m).1.has_tool_result_data ≡ m.has_tool_result_data
unfolding add_assistant_message
flag-add_assistant_message content m = preserve_fact-flag _ _ _ _

-- An event of another type is no tool result.
apart :
    (ty kind : String)
    → (kind == "tool_result") ≡ false
    → (ty == kind) ≡ true
    → (ty == "tool_result") ≡ false
apart ty kind other same = rw ((eq_iff ty kind).0 same) other

flag-remember_fields :
    (codec : Codec) (event : Event) (m : MemoryManager)
    → (remember_fields codec event m).1.has_tool_result_data
      ≡ (m.has_tool_result_data || is_tool_result event)
unfolding remember_fields add_tool_result
flag-remember_fields codec event m = elim (Bool-cases (event.event_type == "run_started")) [
  | inl a ↦ rw (a, flag-add_user_message, apart _ _ refl a) (ground arith)
  | inr a ↦ elim (Bool-cases (event.event_type == "user_message")) [
    | inl b ↦ rw (a, b, flag-add_user_message, apart _ _ refl b) (ground arith)
    | inr b ↦ elim (Bool-cases (event.event_type == "assistant_message")) [
      | inl c ↦ rw (a, b, c, flag-add_assistant_message, apart _ _ refl c) (ground arith)
      | inr c ↦ elim (Bool-cases (event.event_type == "tool_result")) [
        | inl d ↦ rw (a, b, c, d) (ground arith)
        | inr d ↦ rw (a, b, c, d) (ground arith)
      ]
    ]
  ]
]

refused_event :
    (codec : Codec) (event : Event) (m : MemoryManager)
    → (is_read event && not (is_dict event.payload)) ≡ true
    → remember_event codec event m
      ≡ (raise (builtin "AttributeError") "object has no attribute 'get'", m)
unfolding remember_event
refused_event codec event m wrong = rw (wrong, remember_event)

read_event :
    (codec : Codec) (event : Event) (m : MemoryManager)
    → (is_read event && not (is_dict event.payload)) ≡ false
    → remember_event codec event m ≡ remember_fields codec event m
unfolding remember_event
read_event codec event m fine = rw (fine, remember_event)

flag-remember_events :
    (codec : Codec) (events : List Event) (m memory : MemoryManager)
    → remember_events codec events m ≡ ok memory
    → memory.has_tool_result_data ≡ (m.has_tool_result_data || any is_tool_result events)
unfolding remember_events
flag-remember_events codec [] m memory h = ground arith
flag-remember_events codec (e ∷ events) m memory h =
    elim (Bool-cases (is_read e && not (is_dict e.payload))) [
      | inl wrong ↦ ground (arith, refused_event codec e m wrong, h)
      | inr fine ↦ ground (
        arith,
        read_event codec e m fine,
        flag-remember_fields codec e m,
        flag-remember_events codec events (remember_fields codec e m).1 memory,
      )
    ]

-- When the memory is rebuilt from the log after a crash, it is marked exactly if the log holds a tool result, so `send_email` stays
-- blocked after a crash as it was before.
pub flag-from_events :
    (codec : Codec) (events : List Event) (token_budget : ℕ) (memory : MemoryManager)
    → from_events codec events token_budget ≡ ok memory
    → memory.has_tool_result_data ≡ any is_tool_result events
unfolding from_events
flag-from_events codec events b memory h = elim (Result-cases (new_window b)) [
  | inl (window, fine) ↦
      flag-remember_events codec events (new_manager window) memory (rw (fine, from_events) at h)
  | inr (e, refused) ↦ let impossible : raised e ≡ ok memory = rw (refused, from_events) at h in cc
]
