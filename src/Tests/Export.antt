-- ===== src/Tests/Export.antt =====
-- The theorems about datasets and spreadsheets at concrete inputs.
use web_data_extraction_engi.Prelude.{
  ℕ, ◌≤◌, ◌<◌, ◌≡◌, ◌≢◌, refl, inr, Bool, true, false, List, [], ◌∷◌, ◌++◌, some, none, String,
  length, count_if, All, ◌==◌, ◌&&◌,
}
use Prim.Native.Char.{Char, code}
use web_data_extraction_engi.Prelude.Sorting.{sort_by, insert_by, str_leb}
use web_data_extraction_engi.Store.{ExportOptions, RecordPolicy}
use web_data_extraction_engi.Store.Tx.{ok, err, export_too_large}
use web_data_extraction_engi.Dataset.{
  number, text, Row, ExportRecord, CanonicalExportDataset, get, put, build_dataset, extra_fields,
  by_identity, is_exported, export_rows,
}
use web_data_extraction_engi.Dataset.Cells.{csv_table, xlsx_table, csv_cell, flat, cell_value}
use web_data_extraction_engi.Dataset.Rows.{build_dataset_lem, expected_rows, keys}
use web_data_extraction_engi.Dataset.Order.{exchange, build_dataset-Reordered}
use web_data_extraction_engi.Dataset.Formulas.{IsInert, below_header, tables-IsInert, csv_cell-zero}

abbrev options : ExportOptions
options = record {
  record_policy = RecordPolicy.valid_only;
  include_validation_metadata = true;
  include_provenance_metadata = false;
}

abbrev lamp : ExportRecord ℕ
lamp = record {
  record_identity = "b";
  fields = ("name", some (text "=lamp")) ∷ ("price", some (number 0)) ∷ [];
  validation_status = "PASS";
  quality = "HIGH";
}

abbrev chair : ExportRecord ℕ
chair = record {
  record_identity = "a";
  fields = ("name", none) ∷ [];
  validation_status = "FAIL";
  quality = "INVALID";
}

abbrev names : List String
names = "name" ∷ "price" ∷ []

abbrev dataset : CanonicalExportDataset ℕ
dataset = record {
  fields = "name" ∷ "price" ∷ "validation_status" ∷ "quality" ∷ [];
  rows =
      (("name", text "=lamp")
        ∷ ("price", number 0)
        ∷ ("validation_status", text "PASS")
        ∷ ("quality", text "HIGH")
        ∷ [])
      ∷ [];
  validation_run_id = 30;
  plan_version = 1;
  options = options;
}

abbrev is_space : Char → Bool
is_space c = code c == b' '

dataset_run : build_dataset names 1 30 (lamp ∷ chair ∷ []) options 5 ≡ ok dataset
unfolding build_dataset export_rows sort_by insert_by str_leb put get
dataset_run = refl

csv_run :
    csv_table is_space (λ n. n == 0) dataset
    ≡ (text "name" ∷ text "price" ∷ text "validation_status" ∷ text "quality" ∷ [])
      ∷ (text "'=lamp" ∷ text "" ∷ text "PASS" ∷ text "HIGH" ∷ [])
      ∷ []
unfolding csv_table get
csv_run = refl

build_dataset_lem_example :
    (5 < length (lamp ∷ chair ∷ [])
      → build_dataset names 1 30 (lamp ∷ chair ∷ []) options 5 ≡ err export_too_large)
    × (length (lamp ∷ chair ∷ []) ≤ 5
        → (d : CanonicalExportDataset ℕ) × (build_dataset names 1 30 (lamp ∷ chair ∷ []) options 5
            ≡ ok d)
          × (d.fields ≡ names ++ extra_fields options)
          × (d.rows ≡ expected_rows names options (sort_by by_identity (lamp ∷ chair ∷ [])))
          × (All (λ row. keys row ≡ d.fields) d.rows)
          × (length d.rows
              ≡ count_if
                  (λ r. is_exported options.record_policy r.validation_status)
                  (lamp ∷ chair ∷ [])))
build_dataset_lem_example =
    build_dataset_lem names 1 30 5 (lamp ∷ chair ∷ []) options (refl, (refl, tt)) (refl, (refl, tt))

apart : (by_identity lamp chair && by_identity chair lamp) ≡ false
unfolding str_leb
apart = refl

build_dataset-Reordered_example :
    build_dataset names 1 30 (lamp ∷ chair ∷ []) options 5
    ≡ build_dataset names 1 30 (chair ∷ lamp ∷ []) options 5
build_dataset-Reordered_example =
    build_dataset-Reordered names 1 30 5 options (lamp ∷ chair ∷ []) (chair ∷ lamp ∷ [])
      (exchange lamp chair [] apart)

tables-IsInert_example :
    All
      (All (IsInert is_space refl))
      (below_header is_space refl (λ n. n == 0) (csv_table is_space (λ n. n == 0) dataset))
    × All
        (All (IsInert is_space refl))
        (below_header is_space refl (λ n. n == 0) (xlsx_table is_space dataset))
tables-IsInert_example = tables-IsInert is_space refl (λ n. n == 0) dataset

abbrev free : Row ℕ
free = ("price", number 0) ∷ []

abbrev unpriced : Row ℕ
unpriced = []

price_zero : get "price" free ≡ some (number 0)
unfolding get
price_zero = refl

no_price : get "price" unpriced ≡ none
unfolding get
no_price = refl

csv_cell-zero_example :
    (csv_cell is_space (λ n. n == 0) free "price"
      ≡ csv_cell is_space (λ n. n == 0) unpriced "price")
    × (flat is_space (cell_value free "price") ≢ flat is_space (cell_value unpriced "price"))
csv_cell-zero_example =
    csv_cell-zero is_space (λ n. n == 0) free unpriced "price" "price" (number 0) price_zero
      (inr (0, refl, refl)) no_price
