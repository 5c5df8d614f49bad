-- ===== src/Dataset/Cells.antt =====
-- export_service.py: the cells of the CSV and XLSX writers. The bytes of the files are those of the
-- csv module and of openpyxl, from these cells.
use web_data_extraction_engi.Prelude.{
  Bool, true, false, not, ◌||◌, List, [], ◌∷◌, String, map, maybe, str_eq, if◌then◌else◌, ◌==◌,
}
use Prim.Native.Char.{Char, code}
use web_data_extraction_engi.Dataset.{
  Value, null, boolean, number, text, nested, Row, CanonicalExportDataset, get, put,
}

-- `_FORMULA_PREFIXES`
abbrev pub is_formula_prefix : Char → Bool
is_formula_prefix c = code c == b'=' || code c == b'+' || code c == b'-' || code c == b'@'

-- `row.get(field)`
abbrev pub cell_value : {Number : Type 0} → Row Number → String → Value Number
cell_value row field = maybe (get field row) null (λ v. v)

-- `is_space` is `str.isspace` of one character
module _ (is_space : Char → Bool) where
  -- `value.lstrip().startswith(_FORMULA_PREFIXES)`
  unfoldable pub is_formula : String → Bool
  is_formula String.[] = false
  is_formula (String.◌∷◌ c s) = if is_space c then is_formula s else is_formula_prefix c

  -- `_safe_spreadsheet` of a text
  unfoldable pub safe_text : String → String
  unfolding is_formula
  safe_text s = if is_formula s then String.◌∷◌ "'" s else s

  module _ {Number : Type 0} where
    -- `_flat(value, spreadsheet=True)`
    unfoldable pub flat : Value Number → Value Number
    unfolding safe_text
    flat null = null
    flat (boolean b) = boolean b
    flat (number n) = number n
    flat (text s) = text (safe_text s)
    flat (nested s) = text (safe_text s)

    module _ (is_zero : Number → Bool) where
      -- `not value`
      abbrev pub is_falsy : Value Number → Bool
      is_falsy null = true
      is_falsy (boolean b) = not b
      is_falsy (number n) = is_zero n
      is_falsy (text s) = str_eq s ""
      is_falsy (nested s) = str_eq s ""

      -- `_flat(row.get(field), spreadsheet=True) or ""`
      unfoldable pub csv_cell : Row Number → String → Value Number
      unfolding flat
      csv_cell row field =
          let cell = flat (cell_value row field) in if is_falsy cell then text "" else cell

      -- the header and the rows of `CsvExporter.write`
      unfoldable pub csv_table : CanonicalExportDataset Number → List (List (Value Number))
      unfolding csv_cell
      csv_table dataset =
          map text dataset.fields ∷ map (λ row. map (csv_cell row) dataset.fields) dataset.rows

    -- the cells of the sheet "Data" of `XlsxExporter.write`, without its layout
    unfoldable pub xlsx_table : CanonicalExportDataset Number → List (List (Value Number))
    unfolding flat
    xlsx_table dataset =
        map text dataset.fields
        ∷ map (λ row. map (λ field. flat (cell_value row field)) dataset.fields) dataset.rows

module _ {Number : Type 0} where
  -- `{field: row.get(field) for field in dataset.fields}`
  unfoldable pub json_record : Row Number → List String → Row Number → Row Number
  json_record row [] out = out
  json_record row (field ∷ fields) out =
      json_record row fields (put field (cell_value row field) out)

  -- the `records` of `JsonExporter.write`
  unfoldable pub json_records : CanonicalExportDataset Number → List (Row Number)
  unfolding json_record
  json_records dataset = map (λ row. json_record row dataset.fields []) dataset.rows
