-- ===== src/Table.antt =====
-- The SQL statements on one table, over rows with a key column: the operations that run.py makes
-- of its tables, and their laws. A table is the list of its rows in insertion order.
use adversarial_agent_runtim.Prelude.{
  String, ◌≡◌, refl, Option, none, some, List, [], ◌∷◌, ◌++◌, arith, ◌==◌, eq_iff, if◌then◌else◌,
  is_some,
}

module _ {ℓ} {R : Type ℓ} (key : R → String) where
  -- SELECT * FROM rows WHERE key = ?, one row.
  unfoldable pub find_row : String → List R → Option R
  find_row k [] = none
  find_row k (r ∷ rows) = if key r == k then some r else find_row k rows

  -- INSERT OR IGNORE INTO rows.
  unfoldable pub insert_or_ignore : R → List R → List R
  insert_or_ignore r rows = if is_some (find_row (key r) rows) then rows else rows ++ r ∷ []

  -- INSERT INTO rows ... ON CONFLICT(key) DO UPDATE: `merge` makes the updated row of the old one.
  unfoldable pub upsert : (R → R) → R → List R → List R
  upsert merge r [] = r ∷ []
  upsert merge r (x ∷ rows) = if key x == key r then merge x ∷ rows else x ∷ upsert merge r rows

  -- UPDATE rows SET ... WHERE key = ?.
  unfoldable pub update_where : String → (R → R) → List R → List R
  update_where k change [] = []
  update_where k change (x ∷ rows) =
      (if key x == k then change x else x) ∷ update_where k change rows

  -- The key column is unique.
  abbrev pub IsUnique : List R → Type ℓ
  IsUnique [] = Unit
  IsUnique (r ∷ rows) = (find_row (key r) rows ≡ none) × IsUnique rows

  pub find_row-append_one :
      (k : String) (r : R) (rows : List R)
      → find_row k (rows ++ r ∷ []) ≡ (
          if is_some (find_row k rows)
          then find_row k rows
          else if key r == k
          then some r
          else none)
  unfolding find_row
  find_row-append_one k r [] = refl
  find_row-append_one k r (x ∷ rows) = ground (arith, find_row-append_one k r rows)

  pub find_row-insert_or_ignore :
      (k : String) (r : R) (rows : List R)
      → find_row k (insert_or_ignore r rows) ≡ (
          if is_some (find_row k rows)
          then find_row k rows
          else if key r == k
          then some r
          else none)
  unfolding insert_or_ignore
  find_row-insert_or_ignore k r rows =
      ground (arith, find_row-append_one k r rows, eq_iff (key r) k)

  append_one-IsUnique :
      (r : R) (rows : List R)
      → find_row (key r) rows ≡ none
      → IsUnique rows
      → IsUnique (rows ++ r ∷ [])
  unfolding find_row
  append_one-IsUnique r [] h u = (refl, tt)
  append_one-IsUnique r (x ∷ rows) h u = ground (
    arith,
    append_one-IsUnique r rows,
    find_row-append_one (key x) r rows,
    eq_iff (key x) (key r),
    eq_iff (key r) (key x),
  )

  pub insert_or_ignore-IsUnique :
      (r : R) (rows : List R) → IsUnique rows → IsUnique (insert_or_ignore r rows)
  unfolding insert_or_ignore
  insert_or_ignore-IsUnique r rows u = ground (arith, append_one-IsUnique r rows)

  -- The updated row keeps its key.
  module _ (merge : R → R) (keeps : (x : R) → key (merge x) ≡ key x) where
    pub find_row-upsert :
        (k : String) (r : R) (rows : List R)
        → find_row k (upsert merge r rows) ≡ (
            if key r == k
            then elim (find_row k rows) [ none ↦ some r | some x ↦ some (merge x) ]
            else find_row k rows)
    unfolding find_row upsert
    find_row-upsert k r [] = ground arith
    find_row-upsert k r (x ∷ rows) = ground (
      arith,
      find_row-upsert k r rows,
      keeps x,
      eq_iff (key r) k,
      eq_iff (key x) k,
      eq_iff (key x) (key r),
    )

    pub upsert-IsUnique : (r : R) (rows : List R) → IsUnique rows → IsUnique (upsert merge r rows)
    unfolding find_row upsert
    upsert-IsUnique r [] u = (refl, tt)
    upsert-IsUnique r (x ∷ rows) u = ground (
      arith,
      upsert-IsUnique r rows,
      find_row-upsert (key x) r rows,
      keeps x,
      eq_iff (key r) (key x),
      eq_iff (key x) (key r),
    )

    pub find_row-update_where :
        (k j : String) (rows : List R)
        → find_row j (update_where k merge rows) ≡ (
            if k == j
            then elim (find_row j rows) [ none ↦ none | some x ↦ some (merge x) ]
            else find_row j rows)
    unfolding find_row update_where
    find_row-update_where k j [] = ground arith
    find_row-update_where k j (x ∷ rows) = ground (
      arith,
      find_row-update_where k j rows,
      keeps x,
      eq_iff (key x) k,
      eq_iff (key x) j,
      eq_iff k j,
    )

    pub update_where-IsUnique :
        (k : String) (rows : List R) → IsUnique rows → IsUnique (update_where k merge rows)
    unfolding update_where
    update_where-IsUnique k [] u = tt
    update_where-IsUnique k (x ∷ rows) u =
        ground (arith, update_where-IsUnique k rows, keeps x, find_row-update_where k (key x) rows)
