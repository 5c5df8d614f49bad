-- ===== src/Dispatch/Pending.antt =====
-- queue.py: how many rows are left when the chosen ones are marked.
use web_data_extraction_engi.Prelude.{
  ℕ, ◌-◌, ◌≡◌, refl, ◌∙◌, Bool, true, not, ◌&&◌, List, [], ◌∷◌, any, count_if, arith, eq_iff,
  Bool-cases, inl, inr,
}
use web_data_extraction_engi.Prelude.Counting.{Unique, count_if-chosen}
use web_data_extraction_engi.Store.{
  WorkOutbox, OperationKey, phase_key, discovery_source_key, discovery_page_key,
  extraction_page_key, validation_key, export_key,
}
use web_data_extraction_engi.Store.Tables.{key_eq}
use web_data_extraction_engi.Dispatch.{
  is_pending, by_creation, pending_rows, same_row, mark_published,
}

key_eq_refl : (k : OperationKey) → key_eq k k ≡ true
key_eq_refl (phase_key j p n) = rw ((eq_iff p p).1 refl) (ground arith)
key_eq_refl (discovery_source_key j) = ground arith
key_eq_refl (discovery_page_key j p) = ground arith
key_eq_refl (extraction_page_key j p v) = ground arith
key_eq_refl (validation_key j r) = ground arith
key_eq_refl (export_key e n) = ground arith

-- the number of rows that are due
abbrev pub due : ℕ → List WorkOutbox → ℕ
due now rows = count_if (is_pending now) rows

module _ (now : ℕ) (chosen : List WorkOutbox) where
  abbrev left : WorkOutbox → Bool
  left r = not (any (same_row r) chosen)

  mark_published-due :
      (rows : List WorkOutbox)
      → due now (mark_published now chosen rows) ≡ count_if (λ r. is_pending now r && left r) rows
  unfolding mark_published
  mark_published-due [] = refl
  mark_published-due (r ∷ rows) = elim (Bool-cases (any (same_row r) chosen)) [
    | inl e ↦ rw e (ground (arith, mark_published-due rows))
    | inr e ↦ rw e (ground (arith, mark_published-due rows))
  ]

  pub mark_published-keys :
      (k : WorkOutbox) (rows : List WorkOutbox)
      → count_if (λ r. same_row r k) (mark_published now chosen rows)
        ≡ count_if (λ r. same_row r k) rows
  unfolding mark_published
  mark_published-keys k [] = refl
  mark_published-keys k (r ∷ rows) = elim (Bool-cases (any (same_row r) chosen)) [
    | inl e ↦ rw (e, mark_published-keys k rows) refl
    | inr e ↦ rw (e, mark_published-keys k rows) refl
  ]

pub same_row_refl : (r : WorkOutbox) → same_row r r ≡ true
same_row_refl r = key_eq_refl r.command.operation_key

-- a dispatch publishes as many pending rows as it may
pub pending_rows-due :
    (now limit : ℕ) (rows : List WorkOutbox)
    → Unique same_row rows
    → due now (mark_published now (pending_rows now limit rows) rows) ≡ due now rows - limit
unfolding pending_rows
pending_rows-due now limit rows unique =
    mark_published-due now (pending_rows now limit rows) rows
    ∙ count_if-chosen same_row same_row_refl (is_pending now) by_creation limit rows unique
