-- ===== src/Memory/Droppable.antt =====
-- `_oldest_droppable_index` of agent/message.py, and the loop that drops.
use mathlib.Core.Path.{subst}
use adversarial_agent_runtim.Prelude.{
  ℕ, zero, suc, ◌+◌, ◌≤◌, ◌≡◌, refl, ◌⊎◌, inl, inr, true, false, ◌||◌, Option, none, some, List, [],
  ◌∷◌, arith, leb, Bool-cases, Option-cases, length, get_elem?,
}
use adversarial_agent_runtim.Memory.Message.{
  MemoryMessage, is_protected, is_compaction_summary, message_token_count,
}
use adversarial_agent_runtim.Memory.Window.{
  is_index, first_user_index, oldest_from, oldest_droppable_index, delete_at, drop_until_fit,
}

-- Index `j`, counted from `i`, holds a message that is neither protected nor the first user's.
pub record IsDroppable (first : Option ℕ) (i : ℕ) (ms : List MemoryMessage) (j : ℕ) : Type 0 where
  pub offset : ℕ
  pub message : MemoryMessage
  pub position : j ≡ i + offset
  pub found : get_elem? ms offset ≡ some message
  pub unprotected : is_protected message ≡ false
  pub not_first : is_index first j ≡ false

later :
    (first : Option ℕ) (i : ℕ) (m : MemoryMessage) (ms : List MemoryMessage) (j : ℕ)
    → IsDroppable first (suc i) ms j
    → IsDroppable first i (m ∷ ms) j
later first i m ms j d = record {
  offset = suc d.offset;
  message = d.message;
  position = omega arith;
  found = d.found;
  unprotected = d.unprotected;
  not_first = d.not_first;
}

here :
    (first : Option ℕ) (i : ℕ) (m : MemoryMessage) (ms : List MemoryMessage)
    → (is_index first i || is_protected m) ≡ false
    → IsDroppable first i (m ∷ ms) i
here first i m ms h = record {
  offset = 0;
  message = m;
  position = omega arith;
  found = refl;
  unprotected = ground arith;
  not_first = ground arith;
}

from_later :
    (first summary : Option ℕ) (i : ℕ) (m : MemoryMessage) (ms : List MemoryMessage) (j : ℕ)
    → (summary ≡ some j) ⊎ IsDroppable first (suc i) ms j
    → (summary ≡ some j) ⊎ IsDroppable first i (m ∷ ms) j
from_later first summary i m ms j (inl e) = inl e
from_later first summary i m ms j (inr d) = inr (later first i m ms j d)

-- Where the message at `i` is a summary, and the first one seen, the index may be `i`.
from_summary :
    (first summary : Option ℕ) (i : ℕ) (m : MemoryMessage) (ms : List MemoryMessage) (j : ℕ)
    → (is_index first i || is_protected m) ≡ false
    → ((elim summary [ none ↦ some i | some k ↦ some k ]) ≡ some j) ⊎ IsDroppable first (suc i) ms j
    → (summary ≡ some j) ⊎ IsDroppable first i (m ∷ ms) j
from_summary first none i m ms j h (inl e) =
    let same : i ≡ j = cc in inr (subst (IsDroppable first i (m ∷ ms)) same (here first i m ms h))
from_summary first (some k) i m ms j h (inl e) = inl e
from_summary first summary i m ms j h (inr d) = inr (later first i m ms j d)

-- The index is that of the summary found before, or of a droppable message from here on.
oldest_from-IsDroppable :
    (first summary : Option ℕ) (i : ℕ) (ms : List MemoryMessage) (j : ℕ)
    → oldest_from first summary i ms ≡ some j
    → (summary ≡ some j) ⊎ IsDroppable first i ms j
unfolding oldest_from
oldest_from-IsDroppable first summary i [] j h = inl h
oldest_from-IsDroppable first summary i (m ∷ ms) j h =
    elim (Bool-cases (is_index first i || is_protected m)) [
      | inl kept ↦
          from_later first summary i m ms j
            (oldest_from-IsDroppable first summary (suc i) ms j (rw (kept, oldest_from) at h))
      | inr free ↦ elim (Bool-cases (is_compaction_summary m)) [
        | inl is_summary ↦ from_summary first summary i m ms j free (
            oldest_from-IsDroppable first (elim summary [ none ↦ some i | some k ↦ some k ]) (suc i)
              ms j (rw (free, is_summary, oldest_from) at h))
        | inr is_other ↦
            let found : some i ≡ some j = rw (free, is_other, oldest_from) at h in
            let same : i ≡ j = cc in
            inr (subst (IsDroppable first i (m ∷ ms)) same (here first i m ms free))
      ]
    ]

pub oldest-IsDroppable :
    (ms : List MemoryMessage) (j : ℕ)
    → oldest_droppable_index ms ≡ some j
    → IsDroppable (first_user_index ms) 0 ms j
unfolding oldest_droppable_index
oldest-IsDroppable ms j h = elim (oldest_from-IsDroppable (first_user_index ms) none 0 ms j h) [
  | inl e ↦ cc
  | inr d ↦ d
]

length-delete_at :
    (i : ℕ) (m : MemoryMessage) (ms : List MemoryMessage)
    → get_elem? ms i ≡ some m
    → suc (length (delete_at i ms)) ≡ length ms
unfolding delete_at
length-delete_at i m [] e = cc
length-delete_at zero m (x ∷ ms) e = refl
length-delete_at (suc i) m (x ∷ ms) e = omega (arith, length-delete_at i m ms e)

-- Counted from 0, the index is the offset.
pub at_offset :
    (P : ℕ → Type 0) {first : Option ℕ} {ms : List MemoryMessage} {j : ℕ}
    (d : IsDroppable first 0 ms j)
    → P d.offset
    → P j
at_offset P {j} d h = let same : d.offset ≡ j = omega arith in subst P same h

length_dropped :
    (first : Option ℕ) (ms : List MemoryMessage) (j : ℕ)
    → IsDroppable first 0 ms j
    → suc (length (delete_at j ms)) ≡ length ms
length_dropped first ms j d =
    at_offset (λ i. suc (length (delete_at i ms)) ≡ length ms) d
      (length-delete_at d.offset d.message ms d.found)

-- An invariant of dropping one droppable message is an invariant of the loop.
pub drop_until_fit_induction :
    (P : List MemoryMessage → Type 0)
    → ((ms : List MemoryMessage) (j : ℕ)
        → IsDroppable (first_user_index ms) 0 ms j
        → P ms
        → P (delete_at j ms))
    → (fuel token_budget : ℕ) (ms : List MemoryMessage) → P ms
    → P (drop_until_fit fuel token_budget ms)
unfolding drop_until_fit
drop_until_fit_induction P step zero b ms h = h
drop_until_fit_induction P step (suc fuel) b ms h =
    elim (Bool-cases (leb (message_token_count ms) b)) [
      | inl fits ↦ rw (fits, drop_until_fit) h
      | inr over ↦ elim (Option-cases (oldest_droppable_index ms)) [
        | inl stuck ↦ rw (over, stuck, drop_until_fit) h
        | inr (j, e) ↦
            rw (over, e, drop_until_fit)
              (drop_until_fit_induction P step fuel b (delete_at j ms)
                (step ms j (oldest-IsDroppable ms j e) h))
      ]
    ]

-- With as much fuel as messages the loop ends by its own tests: the messages fit, or none of them
-- can be dropped.
pub drop_until_fit_ends :
    (fuel token_budget : ℕ) (ms : List MemoryMessage)
    → length ms ≤ fuel
    → (leb (message_token_count (drop_until_fit fuel token_budget ms)) token_budget ≡ true)
      ⊎ (oldest_droppable_index (drop_until_fit fuel token_budget ms) ≡ none)
unfolding drop_until_fit message_token_count
drop_until_fit_ends zero b [] h = inl (ground arith)
drop_until_fit_ends zero b (m ∷ ms) h = absurd (omega arith)
drop_until_fit_ends (suc fuel) b ms h = elim (Bool-cases (leb (message_token_count ms) b)) [
  | inl fits ↦ rw (fits, drop_until_fit) (inl fits)
  | inr over ↦ elim (Option-cases (oldest_droppable_index ms)) [
    | inl stuck ↦ rw (over, stuck, drop_until_fit) (inr stuck)
    | inr (j, e) ↦
        let shorter = length_dropped (first_user_index ms) ms j (oldest-IsDroppable ms j e) in
        rw (over, e, drop_until_fit) (drop_until_fit_ends fuel b (delete_at j ms) (omega arith))
  ]
]
