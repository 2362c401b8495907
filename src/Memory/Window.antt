-- ===== src/Memory/Window.antt =====
-- agent/message.py, `MemoryWindow`. A method that raises leaves the window that it has reached.
use Prim.Native.String.{◌++◌}
use adversarial_agent_runtim.Prelude.{
  ℕ, zero, suc, ◌-◌, String, Bool, true, false, not, ◌||◌, Option, none, some, List, [], ◌∷◌, ◌==◌,
  leb, eqb, ltb, if◌then◌else◌, length, take, keep, map,
}
use mathlib.Core.List.{◌++◌ as append}
use adversarial_agent_runtim.Errors.{Result, ok, raise, context_limit_exceeded_error}
use adversarial_agent_runtim.Text.{join, decimal}
use adversarial_agent_runtim.Memory.Message.{
  MemoryMessage, max_context_tokens, compaction_summary_prefix, recent_message_count,
  summary_message_limit, summary_snippet_chars, clip_text, message_token_count, is_protected,
  is_compaction_summary,
}

pub record MemoryWindow : Type 0 where
  pub token_budget : ℕ
  pub messages : List MemoryMessage

-- `__post_init__`, of a window without messages.
unfoldable pub new_window : ℕ → Result MemoryWindow
new_window token_budget =
    if eqb token_budget 0
    then raise context_limit_exceeded_error "token budget must be positive"
    else if ltb max_context_tokens token_budget
    then raise context_limit_exceeded_error "token budget exceeds hard limit of 8000"
    else ok (record { token_budget = token_budget; messages = [] })

-- `_first_user_index`, counted from `i`.
unfoldable pub first_user_from : ℕ → List MemoryMessage → Option ℕ
first_user_from i [] = none
first_user_from i (m ∷ ms) =
    let later = first_user_from (suc i) ms in if m.role == "user" then some i else later

unfoldable pub first_user_index : List MemoryMessage → Option ℕ
first_user_index = first_user_from 0

-- `index == first_user_index`.
abbrev pub is_index : Option ℕ → ℕ → Bool
is_index none i = false
is_index (some j) i = eqb i j

-- `index in keep_indices`.
unfoldable pub in_keep_indices : ℕ → Option ℕ → ℕ → MemoryMessage → Bool
in_keep_indices recent_start first_user i m =
    leb recent_start i || is_index first_user i || is_protected m

-- The messages whose index and value pass the test, with indices from `i`.
unfoldable pub select : (ℕ → MemoryMessage → Bool) → ℕ → List MemoryMessage → List MemoryMessage
select test i [] = []
select test i (m ∷ ms) = let rest = select test (suc i) ms in if test i m then m ∷ rest else rest

-- The line that a message adds to the summary: a tool result is left out.
unfoldable pub summary_line : MemoryMessage → String
summary_line m =
    m.role
    ++ ": "
    ++ (if m.role == "tool"
        then "[untrusted tool result omitted]"
        else clip_text m.content summary_snippet_chars)

omitted_line : ℕ → List String
omitted_line zero = []
omitted_line (suc n) = (decimal (suc n) ++ " older message(s) omitted") ∷ []

-- `_build_summary`.
unfoldable pub build_summary : List MemoryMessage → MemoryMessage
unfolding omitted_line
build_summary messages =
    let snippets = map summary_line (take summary_message_limit messages) in
    let omitted = length messages - length snippets in
    record {
      role = "system";
      content =
          compaction_summary_prefix ++ " " ++ join " | " (append snippets (omitted_line omitted));
    }

-- `kept[:insert_at] + [summary] + kept[insert_at:]`, `insert_at` behind the protected messages that
-- `kept` begins with.
unfoldable pub insert_summary : MemoryMessage → List MemoryMessage → List MemoryMessage
insert_summary summary [] = summary ∷ []
insert_summary summary (m ∷ kept) =
    if is_protected m then m ∷ insert_summary summary kept else summary ∷ m ∷ kept

unfoldable pub with_summary : List MemoryMessage → List MemoryMessage → List MemoryMessage
with_summary [] kept = kept
with_summary (m ∷ removed) kept = insert_summary (build_summary (m ∷ removed)) kept

-- `_compacted_messages`.
unfoldable pub compacted_messages : ℕ → List MemoryMessage → List MemoryMessage
unfolding with_summary
compacted_messages token_budget messages =
    let source = keep (λ m. not (is_compaction_summary m)) messages in
    let keeps = in_keep_indices (length source - recent_message_count) (first_user_index source) in
    if leb (message_token_count source) token_budget
    then source
    else with_summary (select (λ i m. not (keeps i m)) 0 source) (select keeps 0 source)

-- `_oldest_droppable_index`, from index `i`, with the summary's index so far.
unfoldable pub oldest_from : Option ℕ → Option ℕ → ℕ → List MemoryMessage → Option ℕ
oldest_from first_user summary i [] = summary
oldest_from first_user summary i (m ∷ ms) = elim (is_index first_user i || is_protected m) [
  | true ↦ oldest_from first_user summary (suc i) ms
  | false ↦ elim (is_compaction_summary m) [
    | true ↦ oldest_from first_user (elim summary [ none ↦ some i | some j ↦ some j ]) (suc i) ms
    | false ↦ some i
  ]
]

unfoldable pub oldest_droppable_index : List MemoryMessage → Option ℕ
unfolding oldest_from
oldest_droppable_index messages = oldest_from (first_user_index messages) none 0 messages

-- `del messages[index]`.
unfoldable pub delete_at : ℕ → List MemoryMessage → List MemoryMessage
delete_at i [] = []
delete_at zero (m ∷ ms) = ms
delete_at (suc i) (m ∷ ms) = m ∷ delete_at i ms

-- `_drop_droppable_messages_until_fit`; each round deletes a message, so their number is fuel.
unfoldable pub drop_until_fit : ℕ → ℕ → List MemoryMessage → List MemoryMessage
drop_until_fit zero token_budget messages = messages
drop_until_fit (suc fuel) token_budget messages =
    elim (leb (message_token_count messages) token_budget) [
      | true ↦ messages
      | false ↦ elim (oldest_droppable_index messages) [
        | none ↦ messages
        | some i ↦ drop_until_fit fuel token_budget (delete_at i messages)
      ]
    ]

abbrev pub with_messages : MemoryWindow → List MemoryMessage → MemoryWindow
with_messages w messages = record w { messages = messages }

-- What `compact_if_needed` makes of messages that exceed the budget.
unfoldable pub squeeze : ℕ → List MemoryMessage → List MemoryMessage
squeeze token_budget messages =
    let compacted = compacted_messages token_budget messages in
    drop_until_fit (length compacted) token_budget compacted

unfoldable pub compact_if_needed : MemoryWindow → Result (Unit {0}) × MemoryWindow
compact_if_needed w =
    let squeezed = squeeze w.token_budget w.messages in
    if leb (message_token_count w.messages) w.token_budget
    then (ok tt, w)
    else if leb (length w.messages) 1
    then (raise context_limit_exceeded_error "single message exceeds token budget", w)
    else if leb (message_token_count squeezed) w.token_budget
    then (ok tt, with_messages w squeezed)
    else (
      raise context_limit_exceeded_error "context exceeds token budget after compaction",
      with_messages w squeezed,
    )

-- `MemoryWindow.add`.
unfoldable pub add : String → String → MemoryWindow → Result (Unit {0}) × MemoryWindow
add role content w =
    let message : MemoryMessage = record { role = role; content = content } in
    if leb (message_token_count (message ∷ [])) w.token_budget
    then compact_if_needed (with_messages w (append w.messages (message ∷ [])))
    else (raise context_limit_exceeded_error "single message exceeds token budget", w)
