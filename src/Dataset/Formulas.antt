-- ===== src/Dataset/Formulas.antt =====
-- export_service.py: what a spreadsheet makes of a cell.
use web_data_extraction_engi.Prelude.{
  ◌≡◌, refl, Bool, true, false, ◌⊎◌, inl, inr, List, [], ◌∷◌, String, map, Bool-cases, All, none,
  some, ◌≢◌,
}
use Prim.Native.Char.{Char}
use web_data_extraction_engi.Dataset.{
  Value, null, boolean, number, text, nested, Row, CanonicalExportDataset, get,
}
use web_data_extraction_engi.Dataset.Cells.{
  is_formula, safe_text, flat, cell_value, csv_cell, csv_table, xlsx_table, is_falsy,
}

module _ (is_space : Char → Bool) (quote_shows : is_space "'" ≡ false) where
  -- a text is quoted exactly if it is a formula, and the quoted one is none
  safe_text-inert : (s : String) → is_formula is_space (safe_text is_space s) ≡ false
  unfolding safe_text is_formula
  safe_text-inert s = elim (Bool-cases (is_formula is_space s)) [
    | inl e ↦ rw (e, quote_shows)
    | inr e ↦ rw (e, e)
  ]

  module _ {Number : Type 0} where
    abbrev pub IsInert : Value Number → Type 0
    IsInert (text s) = is_formula is_space s ≡ false
    IsInert _ = Unit

    flat-IsInert : (v : Value Number) → IsInert (flat is_space v)
    unfolding flat
    flat-IsInert null = tt
    flat-IsInert (boolean b) = tt
    flat-IsInert (number n) = tt
    flat-IsInert (text s) = safe_text-inert s
    flat-IsInert (nested s) = safe_text-inert s

    module _ (is_zero : Number → Bool) where
      csv_cell-IsInert :
          (row : Row Number) (field : String) → IsInert (csv_cell is_space is_zero row field)
      unfolding csv_cell is_formula
      csv_cell-IsInert row field =
          elim (Bool-cases (is_falsy is_space is_zero (flat is_space (cell_value row field)))) [
            | inl e ↦ rw e refl
            | inr e ↦ rw e (flat-IsInert (cell_value row field))
          ]

      All-map :
          {A B : Type 0} (P : B → Type 0) (f : A → B) (xs : List A)
          → ((a : A) → P (f a))
          → All P (map f xs)
      All-map P f [] h = tt
      All-map P f (x ∷ xs) h = (h x, All-map P f xs h)

      abbrev pub below_header : List (List (Value Number)) → List (List (Value Number))
      below_header [] = []
      below_header (header ∷ rows) = rows

      -- If the quotation mark is no space, no cell below the header of a CSV or XLSX table is a
      -- formula: no text there begins, after its spaces, with one of the formula prefixes.
      pub tables-IsInert :
          (dataset : CanonicalExportDataset Number)
          → All (All IsInert) (below_header (csv_table is_space is_zero dataset))
            × All (All IsInert) (below_header (xlsx_table is_space dataset))
      unfolding csv_table xlsx_table
      tables-IsInert dataset = (
        All-map (All IsInert) _ dataset.rows (λ row.
            All-map IsInert (csv_cell is_space is_zero row) dataset.fields (csv_cell-IsInert row)),
        All-map (All IsInert) _ dataset.rows (λ row.
            All-map IsInert (λ field. flat is_space (cell_value row field)) dataset.fields
              (λ field. flat-IsInert (cell_value row field))),
      )

-- A zero and a false value have the CSV cell of a missing value, but not its XLSX cell.
pub csv_cell-zero :
    {Number : Type 0} (is_space : Char → Bool) (is_zero : Number → Bool) (row other : Row Number)
    (field missing : String) (v : Value Number)
    → get field row ≡ some v
    → (v ≡ boolean false) ⊎ ((n : Number) × (v ≡ number n) × (is_zero n ≡ true))
    → get missing other ≡ none
    → (csv_cell is_space is_zero row field ≡ csv_cell is_space is_zero other missing)
      × (flat is_space (cell_value row field) ≢ flat is_space (cell_value other missing))
unfolding csv_cell flat
csv_cell-zero is_space is_zero row other field missing v e (inl b) h =
    (rw (e, b, h), λ q. cc (rw (e, b, h) at q))
csv_cell-zero is_space is_zero row other field missing v e (inr (n, b, z)) h =
    (rw (e, b, h, z), λ q. cc (rw (e, b, h) at q))
