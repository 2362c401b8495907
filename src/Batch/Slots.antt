-- ===== src/Batch/Slots.antt =====
-- The indices of a batch and the slots of `ordered_results`, agent/runtime.py.
use adversarial_agent_runtim.Prelude.{
  ℕ, zero, suc, ◌≡◌, refl, ap, ◌∙◌, Bool, true, false, Option, none, some, List, [], ◌∷◌, map, All,
  keep, get_elem?, set, eqb, arith, inl, inr, Bool-cases,
}
use adversarial_agent_runtim.Runtime.Keys.{ToolResult}
use adversarial_agent_runtim.Batch.State.{enumerate, batch_has_failed_result}

module _ {ℓ} {A : Type ℓ} where
  -- The value has its index in the list.
  abbrev pub At : List A → ℕ × A → Type ℓ
  At xs (i, x) = get_elem? xs i ≡ some x

  shift : ℕ × A → ℕ × A
  shift (i, x) = (suc i, x)

  enumerate-suc : (i : ℕ) (xs : List A) → enumerate (suc i) xs ≡ map shift (enumerate i xs)
  unfolding shift
  enumerate-suc i [] = refl
  enumerate-suc i (x ∷ xs) = ap (λ rest. (suc i, x) ∷ rest) (enumerate-suc (suc i) xs)

  shifted-At :
      (x : A) (xs : List A) (items : List (ℕ × A))
      → All (At xs) items
      → All (At (x ∷ xs)) (map shift items)
  unfolding shift
  shifted-At x xs [] h = tt
  shifted-At x xs (item ∷ items) h = (h.0, shifted-At x xs items h.1)

  pub enumerate-At : (xs : List A) → All (At xs) (enumerate 0 xs)
  enumerate-At [] = tt
  enumerate-At (x ∷ xs) =
      (refl, rw (enumerate-suc 0 xs) (shifted-At x xs (enumerate 0 xs) (enumerate-At xs)))

  pub get_elem?-set_other :
      (xs : List A) (i j : ℕ) (v : A) → eqb i j ≡ false → get_elem? (set xs i v) j ≡ get_elem? xs j
  get_elem?-set_other [] i j v h = refl
  get_elem?-set_other (x ∷ xs) zero zero v h = ground (arith, h)
  get_elem?-set_other (x ∷ xs) zero (suc j) v h = refl
  get_elem?-set_other (x ∷ xs) (suc i) zero v h = refl
  get_elem?-set_other (x ∷ xs) (suc i) (suc j) v h =
      get_elem?-set_other xs i j v (ground (arith, h))

  pub same_index :
      (xs : List A) (i j : ℕ) (x y : A)
      → eqb i j ≡ true
      → At xs (i, x)
      → At xs (j, y)
      → Path (Option A) (some x) (some y)
  same_index xs i j x y same hx hy = ground (arith, hx, hy, same)

module _ {ℓ κ} {A : Type ℓ} {B : Type κ} where
  pub get_elem?-map :
      (f : A → B) (xs : List A) (i : ℕ) (x : A)
      → get_elem? xs i ≡ some x
      → get_elem? (map f xs) i ≡ some (f x)
  get_elem?-map f [] i x h = cc
  get_elem?-map f (y ∷ xs) zero x h = ap_some h
    where
      ap_some : Path (Option A) (some y) (some x) → Path (Option B) (some (f y)) (some (f x))
      ap_some e = cc
  get_elem?-map f (y ∷ xs) (suc i) x h = get_elem?-map f xs i x h

module _ {ℓ κ} {A : Type ℓ} (P : A → Type κ) where
  -- What was kept has the property and passed the test.
  pub All-keep :
      (test : A → Bool) (xs : List A) → All P xs → All (λ x. P x × (test x ≡ true)) (keep test xs)
  All-keep test [] h = tt
  All-keep test (x ∷ xs) h = elim (Bool-cases (test x)) [
    | inl passed ↦ rw passed ((h.0, passed), All-keep test xs h.1)
    | inr dropped ↦ rw dropped (All-keep test xs h.1)
  ]

  pub All-implies {μ} : (Q : A → Type μ) (xs : List A) → ((x : A) → P x → Q x) → All P xs → All Q xs
  All-implies Q [] f h = tt
  All-implies Q (x ∷ xs) f h = (f x h.0, All-implies Q xs f h.1)

-- The slot with this index holds a failed result.
abbrev pub FailedAt : ℕ → List (Option ToolResult) → Type 0
FailedAt j results = (r : ToolResult) × (get_elem? results j ≡ some (some r)) × (r.ok ≡ false)

pub failed_slot :
    (results : List (Option ToolResult))
    → batch_has_failed_result results ≡ true
    → (j : ℕ) × FailedAt j results
unfolding batch_has_failed_result
failed_slot [] h = cc
failed_slot (none ∷ results) h = let (j, f) = failed_slot results h in (suc j, f)
failed_slot (some r ∷ results) h = elim (Bool-cases r.ok) [
  | inr failed ↦ (0, (r, refl, failed))
  | inl passed ↦ let (j, f) = failed_slot results (ground (arith, h, passed)) in (suc j, f)
]

pub has_failed-FailedAt :
    (j : ℕ) (results : List (Option ToolResult))
    → FailedAt j results
    → batch_has_failed_result results ≡ true
unfolding batch_has_failed_result
has_failed-FailedAt j [] (r, at, failed) = cc
has_failed-FailedAt zero (slot ∷ results) (r, at, failed) = ground (arith, at, failed)
has_failed-FailedAt (suc j) (slot ∷ results) f = ground (arith, has_failed-FailedAt j results f)

pub set-FailedAt :
    (i j : ℕ) (v : Option ToolResult) (results : List (Option ToolResult))
    → eqb i j ≡ false
    → FailedAt j results
    → FailedAt j (set results i v)
set-FailedAt i j v results other (r, at, failed) =
    (r, get_elem?-set_other results i j v other ∙ at, failed)
