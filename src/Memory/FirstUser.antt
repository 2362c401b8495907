-- ===== src/Memory/FirstUser.antt =====
-- The first user message, which holds the task, under compaction in agent/message.py.
use mathlib.Core.Path.{subst}
use adversarial_agent_runtim.Prelude.{
  ℕ, zero, suc, ◌+◌, String, ◌≡◌, refl, ◌∙◌, inl, inr, Bool, true, false, not, Option, none, some,
  List, [], ◌∷◌, arith, ◌==◌, eq_iff, leb, if◌then◌else◌, Bool-cases, length, get_elem?, keep,
}
use adversarial_agent_runtim.Memory.Message.{
  MemoryMessage, is_compaction_summary, message_token_count,
}
use adversarial_agent_runtim.Memory.Window.{
  MemoryWindow, is_index, first_user_from, first_user_index, in_keep_indices, select, build_summary,
  insert_summary, with_summary, compacted_messages, delete_at, squeeze, compact_if_needed,
}
use adversarial_agent_runtim.Memory.Droppable.{IsDroppable, at_offset, drop_until_fit_induction}

unfoldable pub first_user : List MemoryMessage → Option MemoryMessage
first_user [] = none
first_user (m ∷ ms) = if m.role == "user" then some m else first_user ms

pub role_apart : (r : String) → (r == "user") ≡ true → (r == "system") ≡ false
role_apart r h = rw ((eq_iff r "user").0 h)

user_not_summary : (m : MemoryMessage) → (m.role == "user") ≡ true → is_compaction_summary m ≡ false
unfolding is_compaction_summary
user_not_summary m h = ground (arith, role_apart m.role)

first_user-keep :
    (ms : List MemoryMessage)
    → first_user (keep (λ m. not (is_compaction_summary m)) ms) ≡ first_user ms
unfolding first_user
first_user-keep [] = refl
first_user-keep (m ∷ ms) = ground (arith, first_user-keep ms, user_not_summary m)

first_user-select :
    (test : ℕ → MemoryMessage → Bool) (i : ℕ) (ms : List MemoryMessage)
    → ((j : ℕ) (m : MemoryMessage) → is_index (first_user_from i ms) j ≡ true → test j m ≡ true)
    → first_user (select test i ms) ≡ first_user ms
unfolding first_user select first_user_from
first_user-select test i [] h = refl
first_user-select test i (m ∷ ms) h = elim (Bool-cases (m.role == "user")) [
  | inl user ↦ let kept : test i m ≡ true = h i m (rw user (ground arith)) in rw (user, kept, user)
  | inr other ↦
      let rest = first_user-select test (suc i) ms (λ j x p. h j x (rw other p)) in ground arith
]

first_user-insert_summary :
    (s : MemoryMessage) (ms : List MemoryMessage)
    → (s.role == "user") ≡ false
    → first_user (insert_summary s ms) ≡ first_user ms
unfolding first_user insert_summary
first_user-insert_summary s [] h = ground arith
first_user-insert_summary s (m ∷ ms) h = ground (arith, first_user-insert_summary s ms h)

first_user-delete_at :
    (i k : ℕ) (m : MemoryMessage) (ms : List MemoryMessage)
    → get_elem? ms k ≡ some m
    → is_index (first_user_from i ms) (i + k) ≡ false
    → first_user (delete_at k ms) ≡ first_user ms
unfolding first_user delete_at first_user_from
first_user-delete_at i k m [] e h = cc
first_user-delete_at i zero m (x ∷ ms) e h = ground arith
first_user-delete_at i (suc k) m (x ∷ ms) e h =
    ground (arith, first_user-delete_at (suc i) k m ms e)

first_user-with_summary :
    (removed kept : List MemoryMessage) → first_user (with_summary removed kept) ≡ first_user kept
unfolding with_summary build_summary
first_user-with_summary [] kept = refl
first_user-with_summary (m ∷ removed) kept =
    first_user-insert_summary (build_summary (m ∷ removed)) kept refl

first_user_drop :
    (ms : List MemoryMessage) (j : ℕ)
    → IsDroppable (first_user_index ms) 0 ms j
    → first_user (delete_at j ms) ≡ first_user ms
unfolding first_user_index
first_user_drop ms j d =
    at_offset (λ i. first_user (delete_at i ms) ≡ first_user ms) d
      (first_user-delete_at 0 d.offset d.message ms d.found
        (subst (λ i. is_index (first_user_from 0 ms) i ≡ false) d.position d.not_first))

first_user-compacted :
    (b : ℕ) (ms : List MemoryMessage) → first_user (compacted_messages b ms) ≡ first_user ms
unfolding compacted_messages first_user_index in_keep_indices
first_user-compacted b ms =
    let source = keep (λ m. not (is_compaction_summary m)) ms in
    elim (Bool-cases (leb (message_token_count source) b)) [
      | inl fits ↦ rw fits (first_user-keep ms)
      | inr over ↦
          rw (over, first_user-with_summary)
            (first_user-select _ 0 source (λ j m p. ground arith) ∙ first_user-keep ms)
    ]

first_user-squeeze : (b : ℕ) (ms : List MemoryMessage) → first_user (squeeze b ms) ≡ first_user ms
unfolding squeeze
first_user-squeeze b ms =
    drop_until_fit_induction (λ rest. first_user rest ≡ first_user ms)
      (λ rest j d h. first_user_drop rest j d ∙ h) (length (compacted_messages b ms)) b
      (compacted_messages b ms) (first_user-compacted b ms)

-- Compaction, also one that raises, keeps the first user message: the task is never dropped.
pub first_user-compact_if_needed :
    (w : MemoryWindow) → first_user (compact_if_needed w).1.messages ≡ first_user w.messages
unfolding compact_if_needed
first_user-compact_if_needed w = ground (arith, first_user-squeeze w.token_budget w.messages)
