-- ===== src/Memory/Protected.antt =====
-- The protected system messages under compaction in agent/message.py.
use Prim.Native.String.{◌++◌}
use text.Mathlib.TextLemmas.{cons-append}
use adversarial_agent_runtim.Prelude.{
  ℕ, zero, suc, String, ◌≡◌, refl, ◌∙◌, inl, inr, true, false, not, Option, some, List, [], ◌∷◌,
  arith, eq_iff, leb, Bool-cases, length, get_elem?, keep,
}
use adversarial_agent_runtim.Text.{has_prefix}
use adversarial_agent_runtim.Memory.Message.{
  MemoryMessage, safety_preamble, is_durable_facts_message, is_safety_preamble, is_protected,
  is_compaction_summary, message_token_count,
}
use adversarial_agent_runtim.Memory.Window.{
  MemoryWindow, in_keep_indices, select, build_summary, insert_summary, with_summary,
  compacted_messages, delete_at, squeeze, compact_if_needed, first_user_index,
}
use adversarial_agent_runtim.Memory.Droppable.{IsDroppable, at_offset, drop_until_fit_induction}

abbrev pub protected : List MemoryMessage → List MemoryMessage
protected = keep is_protected

-- The two prefixes and the preamble begin with different letters.
facts_prefix_apart :
    (s : String)
    → has_prefix "Preserved durable facts:" s ≡ true
    → has_prefix "Summary of compacted context:" s ≡ false
unfolding has_prefix
facts_prefix_apart String.[] h = refl
facts_prefix_apart (String.◌∷◌ c s) h = ground arith

preamble_apart :
    (s : String) → s ≡ safety_preamble → has_prefix "Summary of compacted context:" s ≡ false
unfolding has_prefix
preamble_apart s h = rw h

pub protected_not_summary :
    (m : MemoryMessage) → is_protected m ≡ true → is_compaction_summary m ≡ false
unfolding is_protected is_safety_preamble is_durable_facts_message is_compaction_summary
protected_not_summary m h = ground (
  arith,
  facts_prefix_apart m.content,
  preamble_apart m.content,
  eq_iff m.content safety_preamble,
)

ledger_apart :
    (x : String)
    → has_prefix "Preserved durable facts:" ("Summary of compacted context:" ++ x) ≡ false
unfolding has_prefix
ledger_apart x = rw cons-append

pub preamble_begins : (s : String) → s ≡ safety_preamble → has_prefix "T" s ≡ true
unfolding has_prefix
preamble_begins s h = rw h

summary_begins : (x : String) → has_prefix "T" ("Summary of compacted context:" ++ x) ≡ false
unfolding has_prefix
summary_begins x = rw cons-append

system_summary_not_protected :
    (x : String)
    → is_protected (record { role = "system"; content = "Summary of compacted context:" ++ x })
      ≡ false
unfolding is_protected is_safety_preamble is_durable_facts_message
system_summary_not_protected x = ground (
  arith,
  ledger_apart x,
  summary_begins x,
  preamble_begins ("Summary of compacted context:" ++ x),
  eq_iff ("Summary of compacted context:" ++ x) safety_preamble,
)

summary_not_protected : (ms : List MemoryMessage) → is_protected (build_summary ms) ≡ false
unfolding build_summary
summary_not_protected ms = system_summary_not_protected _

protected-keep :
    (ms : List MemoryMessage)
    → protected (keep (λ m. not (is_compaction_summary m)) ms) ≡ protected ms
protected-keep [] = refl
protected-keep (m ∷ ms) = ground (arith, protected-keep ms, protected_not_summary m)

protected-select :
    (start : ℕ) (first : Option ℕ) (i : ℕ) (ms : List MemoryMessage)
    → protected (select (in_keep_indices start first) i ms) ≡ protected ms
unfolding select in_keep_indices
protected-select start first i [] = refl
protected-select start first i (m ∷ ms) = ground (arith, protected-select start first (suc i) ms)

protected-insert_summary :
    (s : MemoryMessage) (ms : List MemoryMessage)
    → is_protected s ≡ false
    → protected (insert_summary s ms) ≡ protected ms
unfolding insert_summary
protected-insert_summary s [] h = ground arith
protected-insert_summary s (m ∷ ms) h = ground (arith, protected-insert_summary s ms h)

protected-delete_at :
    (i : ℕ) (m : MemoryMessage) (ms : List MemoryMessage)
    → get_elem? ms i ≡ some m
    → is_protected m ≡ false
    → protected (delete_at i ms) ≡ protected ms
unfolding delete_at
protected-delete_at i m [] e h = cc
protected-delete_at zero m (x ∷ ms) e h = ground arith
protected-delete_at (suc i) m (x ∷ ms) e h = ground (arith, protected-delete_at i m ms e h)

protected_drop :
    (ms : List MemoryMessage) (j : ℕ)
    → IsDroppable (first_user_index ms) 0 ms j
    → protected (delete_at j ms) ≡ protected ms
protected_drop ms j d =
    at_offset (λ i. protected (delete_at i ms) ≡ protected ms) d
      (protected-delete_at d.offset d.message ms d.found d.unprotected)

protected-with_summary :
    (removed kept : List MemoryMessage) → protected (with_summary removed kept) ≡ protected kept
unfolding with_summary
protected-with_summary [] kept = refl
protected-with_summary (m ∷ removed) kept =
    protected-insert_summary (build_summary (m ∷ removed)) kept
      (summary_not_protected (m ∷ removed))

protected-compacted :
    (b : ℕ) (ms : List MemoryMessage) → protected (compacted_messages b ms) ≡ protected ms
unfolding compacted_messages
protected-compacted b ms =
    let source = keep (λ m. not (is_compaction_summary m)) ms in
    elim (Bool-cases (leb (message_token_count source) b)) [
      | inl fits ↦ rw fits (protected-keep ms)
      | inr over ↦ rw (over, protected-with_summary, protected-select) (protected-keep ms)
    ]

pub protected-squeeze : (b : ℕ) (ms : List MemoryMessage) → protected (squeeze b ms) ≡ protected ms
unfolding squeeze
protected-squeeze b ms =
    drop_until_fit_induction (λ rest. protected rest ≡ protected ms)
      (λ rest j d h. protected_drop rest j d ∙ h) (length (compacted_messages b ms)) b
      (compacted_messages b ms) (protected-compacted b ms)

-- Compaction, also one that raises, keeps every protected message, in order, and no others of
-- them appear: the safety preamble and the fact ledger are never dropped.
pub protected-compact_if_needed :
    (w : MemoryWindow) → protected (compact_if_needed w).1.messages ≡ protected w.messages
unfolding compact_if_needed
protected-compact_if_needed w = ground (arith, protected-squeeze w.token_budget w.messages)
