-- ===== src/Memory/Keeps.antt =====
-- The safety preamble and the first user message in the steps of a round of
-- `get_compacted_context`, agent/message.py.
use Prim.Native.String.{◌++◌}
use text.Mathlib.TextLemmas.{cons-append}
use adversarial_agent_runtim.Prelude.{
  String, ◌≡◌, refl, ◌∙◌, sym, ap, inl, inr, true, false, not, List, [], ◌∷◌, arith, ◌==◌, eq_iff,
  Bool-cases, keep, any,
}
use adversarial_agent_runtim.Text.{has_prefix}
use adversarial_agent_runtim.Memory.Message.{
  MemoryMessage, DurableFact, safety_preamble, durable_facts_prefix, is_safety_preamble,
  is_durable_facts_message, is_protected,
}
use adversarial_agent_runtim.Memory.Window.{MemoryWindow, compact_if_needed}
use adversarial_agent_runtim.Memory.Manager.{
  ensure_safety_preamble, fact_ledger_message, insert_ledger, sync_durable_facts,
}
use adversarial_agent_runtim.Memory.Protected.{
  protected, preamble_begins, protected-compact_if_needed,
}
use adversarial_agent_runtim.Memory.FirstUser.{first_user, role_apart}

any-protected :
    (ms : List MemoryMessage) → any is_safety_preamble (protected ms) ≡ any is_safety_preamble ms
unfolding is_protected
any-protected [] = refl
any-protected (m ∷ ms) = ground (arith, any-protected ms)

preamble_apart : (s : String) → s ≡ safety_preamble → has_prefix durable_facts_prefix s ≡ false
unfolding has_prefix
preamble_apart s h = rw h

preamble_not_ledger :
    (m : MemoryMessage) → is_safety_preamble m ≡ true → is_durable_facts_message m ≡ false
unfolding is_safety_preamble is_durable_facts_message
preamble_not_ledger m h = ground (arith, preamble_apart m.content, eq_iff m.content safety_preamble)

ledger_begins : (x : String) → has_prefix "T" (durable_facts_prefix ++ x) ≡ false
unfolding has_prefix
ledger_begins x = rw cons-append

ledger_text_apart : (x : String) → (durable_facts_prefix ++ x == safety_preamble) ≡ false
ledger_text_apart x = ground (
  arith,
  ledger_begins x,
  preamble_begins (durable_facts_prefix ++ x),
  eq_iff (durable_facts_prefix ++ x) safety_preamble,
)

ledger_not_preamble :
    (facts : List DurableFact) → is_safety_preamble (fact_ledger_message facts) ≡ false
unfolding is_safety_preamble fact_ledger_message
ledger_not_preamble facts = ledger_text_apart _

pub any-ensure :
    (ms : List MemoryMessage) → any is_safety_preamble (ensure_safety_preamble ms) ≡ true
unfolding ensure_safety_preamble is_safety_preamble
any-ensure ms = elim (Bool-cases (any is_safety_preamble ms)) [
  | inl there ↦ rw there there
  | inr missing ↦ rw missing
]

any-keep :
    (ms : List MemoryMessage)
    → any is_safety_preamble (keep (λ m. not (is_durable_facts_message m)) ms)
      ≡ any is_safety_preamble ms
any-keep [] = refl
any-keep (m ∷ ms) = ground (arith, any-keep ms, preamble_not_ledger m)

any-insert_ledger :
    (ledger : MemoryMessage) (ms : List MemoryMessage)
    → is_safety_preamble ledger ≡ false
    → any is_safety_preamble (insert_ledger ledger ms) ≡ any is_safety_preamble ms
unfolding insert_ledger
any-insert_ledger ledger [] h = ground arith
any-insert_ledger ledger (m ∷ ms) h = ground arith

pub any-sync :
    (facts : List DurableFact) (ms : List MemoryMessage)
    → any is_safety_preamble (sync_durable_facts facts ms) ≡ any is_safety_preamble ms
unfolding sync_durable_facts
any-sync [] ms = any-keep ms
any-sync (f ∷ facts) ms = any-insert_ledger _ _ (ledger_not_preamble (f ∷ facts)) ∙ any-keep ms

pub any-compact :
    (w : MemoryWindow)
    → any is_safety_preamble (compact_if_needed w).1.messages ≡ any is_safety_preamble w.messages
any-compact w =
    sym (any-protected (compact_if_needed w).1.messages)
    ∙ ap (any is_safety_preamble) (protected-compact_if_needed w)
    ∙ any-protected w.messages

-- The same steps keep the first user message.
ledger_not_user :
    (m : MemoryMessage) → (m.role == "user") ≡ true → is_durable_facts_message m ≡ false
unfolding is_durable_facts_message
ledger_not_user m h = ground (arith, role_apart m.role)

user-keep :
    (ms : List MemoryMessage)
    → first_user (keep (λ m. not (is_durable_facts_message m)) ms) ≡ first_user ms
unfolding first_user
user-keep [] = refl
user-keep (m ∷ ms) = ground (arith, user-keep ms, ledger_not_user m)

user-insert_ledger :
    (ledger : MemoryMessage) (ms : List MemoryMessage)
    → (ledger.role == "user") ≡ false
    → first_user (insert_ledger ledger ms) ≡ first_user ms
unfolding insert_ledger first_user
user-insert_ledger ledger [] h = ground arith
user-insert_ledger ledger (m ∷ ms) h = ground arith

pub user-sync :
    (facts : List DurableFact) (ms : List MemoryMessage)
    → first_user (sync_durable_facts facts ms) ≡ first_user ms
unfolding sync_durable_facts fact_ledger_message
user-sync [] ms = user-keep ms
user-sync (f ∷ facts) ms =
    user-insert_ledger (fact_ledger_message (f ∷ facts)) _ refl ∙ user-keep ms

pub user-ensure : (ms : List MemoryMessage) → first_user (ensure_safety_preamble ms) ≡ first_user ms
unfolding ensure_safety_preamble first_user
user-ensure ms = elim (Bool-cases (any is_safety_preamble ms)) [
  | inl there ↦ rw there
  | inr missing ↦ rw missing
]
