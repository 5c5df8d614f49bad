-- ===== src/Dataset.antt =====
-- services/api/src/wde_api/export_service.py and `load_export_dataset` of services.py: the dataset of
-- an export and the cells of its spreadsheets. A JSON number is of a type that is an argument.
pub mod Cells
pub mod Formulas
pub mod Rows
pub mod Order
use web_data_extraction_engi.Prelude.{
  ℕ, Bool, true, false, List, [], ◌∷◌, ◌++◌, Option, none, some, String, map, length, where_,
  str_in, str_eq, ltb, leb, ◌==◌, ◌&&◌, ◌||◌, not, maybe, if◌then◌else◌,
}
use web_data_extraction_engi.Prelude.Sorting.{str_leb, sort_by}
use web_data_extraction_engi.Store.{
  Db, CanonicalPlan, ExtractionPlan, Record, ValidationResult, ExportOptions, RecordPolicy,
}
use web_data_extraction_engi.Store.Tx.{Result, ok, err, invalid_transition, export_too_large}
use web_data_extraction_engi.Service.Inventory.{latest_plan}
use web_data_extraction_engi.Service.Export.{ExportOperation}

-- a JSON value; a list or a dictionary stands for its `json.dumps`
pub data Value (Number : Type 0) : Type 0 where
  null : Value Number
  boolean : Bool → Value Number
  number : Number → Value Number
  text : String → Value Number
  nested : String → Value Number

module _ {V : Type 0} where
  -- `row[key] = value` on a dictionary, which keeps the order of insertion
  unfoldable pub put : String → V → List (String × V) → List (String × V)
  put key value [] = (key, value) ∷ []
  put key value ((k, v) ∷ row) =
      if str_eq k key then (k, value) ∷ row else (k, v) ∷ put key value row

  -- `row.get(key)`
  unfoldable pub get : String → List (String × V) → Option V
  get key [] = none
  get key ((k, v) ∷ row) = if str_eq k key then some v else get key row

abbrev pub Row : Type 0 → Type 0
Row Number = List (String × Value Number)

-- An entry of `fields` is `none` where the payload has no dictionary there.
pub record ExportRecord (Number : Type 0) : Type 0 where
  pub record_identity : String
  pub fields : List (String × Option (Value Number))
  pub validation_status : String
  pub quality : String

pub record CanonicalExportDataset (Number : Type 0) : Type 0 where
  pub fields : List String
  pub rows : List (Row Number)
  pub validation_run_id : ℕ
  pub plan_version : ℕ
  pub options : ExportOptions

-- the `continue`s of the loop over the records
abbrev pub is_exported : RecordPolicy → String → Bool
is_exported RecordPolicy.all_records status = true
is_exported RecordPolicy.valid_only status = str_eq status "PASS"
is_exported RecordPolicy.valid_and_warnings status = str_in status ("PASS" ∷ "WARN" ∷ [])

abbrev pub extra_fields : ExportOptions → List String
extra_fields options =
    (if options.include_validation_metadata then "validation_status" ∷ "quality" ∷ [] else [])
    ++ (if options.include_provenance_metadata then "record_identity" ∷ [] else [])

-- `ORDER BY Record.record_identity, Record.id`
abbrev by_identity_and_id : Record × ValidationResult → Record × ValidationResult → Bool
by_identity_and_id (r, _) (s, _) =
    if str_eq r.record_identity s.record_identity
    then leb r.id s.id
    else str_leb r.record_identity s.record_identity

-- the join of the job's records with the results of the run
unfoldable pub join_results :
    ℕ → ℕ → List ValidationResult → List Record → List (Record × ValidationResult)
join_results job_id run_id results [] = []
join_results job_id run_id results (r ∷ records) =
    let rest = join_results job_id run_id results records in
    if r.job_id == job_id
    then map (λ v. (r, v))
        (where_ (λ v. v.record_id == r.id && v.validation_run_id == run_id) results)
      ++ rest
    else rest

module _ {Number : Type 0} where
  -- `values.get(field, {}).get("value") if isinstance(values.get(field), dict) else None`
  abbrev pub field_value : String → ExportRecord Number → Value Number
  field_value field r = maybe (get field r.fields) null λ entry. maybe entry null (λ v. v)

  unfoldable pub field_values : ExportRecord Number → List String → Row Number → Row Number
  field_values r [] row = row
  field_values r (field ∷ fields) row = field_values r fields (put field (field_value field r) row)

  abbrev pub with_validation : Bool → ExportRecord Number → Row Number → Row Number
  with_validation false r row = row
  with_validation true r row =
      put "quality" (text r.quality) (put "validation_status" (text r.validation_status) row)

  abbrev pub with_provenance : Bool → ExportRecord Number → Row Number → Row Number
  with_provenance false r row = row
  with_provenance true r row = put "record_identity" (text r.record_identity) row

  unfoldable pub dataset_row : List String → ExportOptions → ExportRecord Number → Row Number
  unfolding field_values
  dataset_row fields options r =
      with_provenance options.include_provenance_metadata r
        (with_validation options.include_validation_metadata r (field_values r fields []))

  abbrev pub by_identity : ExportRecord Number → ExportRecord Number → Bool
  by_identity r s = str_leb r.record_identity s.record_identity

  unfoldable pub export_rows :
      List String → ExportOptions → List (ExportRecord Number) → List (Row Number)
  unfolding dataset_row
  export_rows fields options [] = []
  export_rows fields options (r ∷ records) =
      if is_exported options.record_policy r.validation_status
      then dataset_row fields options r ∷ export_rows fields options records
      else export_rows fields options records

  -- `fields` are the names of the plan's fields
  unfoldable pub build_dataset :
      List String
      → ℕ
      → ℕ
      → List (ExportRecord Number)
      → ExportOptions
      → ℕ
      → Result (CanonicalExportDataset Number)
  build_dataset fields plan_version validation_run_id records options max_records =
      if ltb max_records (length records)
      then err export_too_large
      else ok (record {
        fields = fields ++ extra_fields options;
        rows = export_rows fields options (sort_by by_identity records);
        validation_run_id = validation_run_id;
        plan_version = plan_version;
        options = options;
      })

  -- What the model's rows leave out are arguments: the field names of a plan, the fields of a
  -- record's payload, and the text of a UUID.
  module _ (field_names : CanonicalPlan → List String)
      (payload_fields : Record → List (String × Option (Value Number))) (id_text : ℕ → String) where
    unfoldable pub exported_record : Record × ValidationResult → ExportRecord Number
    exported_record (r, v) = record {
      record_identity = if str_eq r.record_identity "" then id_text r.id else r.record_identity;
      fields = payload_fields r;
      validation_status = v.status;
      quality = v.quality;
    }

    unfoldable pub load_export_dataset :
        ExportOperation → ℕ → Db → Result (CanonicalExportDataset Number)
    unfolding exported_record join_results
    load_export_dataset op max_records db =
        maybe (latest_plan op.job_id db) (err invalid_transition) λ row.
          build_dataset (field_names row.plan) row.plan.plan_version op.validation_run_id
            (map exported_record (
              sort_by by_identity_and_id
                (join_results op.job_id op.validation_run_id db.results db.records)))
            op.options max_records
