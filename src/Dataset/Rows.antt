-- ===== src/Dataset/Rows.antt =====
-- export_service.py: what `build_dataset` answers.
use web_data_extraction_engi.Prelude.{
  ℕ, ◌≤◌, ◌<◌, ◌≡◌, refl, Bool, true, false, ◌||◌, List, [], ◌∷◌, ◌++◌, String, map, arith,
  Bool-cases, inl, inr, length, count_if, where_, All, str_in, eq_iff, ltb, ap, ◌∙◌, sym,
  if◌then◌else◌,
}
use mathlib.Core.List.{append_assoc, append-nil}
use web_data_extraction_engi.Prelude.Sorting.{sort_by, count_if-sort_by}
use web_data_extraction_engi.Store.{ExportOptions}
use web_data_extraction_engi.Store.Tx.{ok, err, export_too_large}
use web_data_extraction_engi.Dataset.{
  Value, text, Row, ExportRecord, CanonicalExportDataset, put, field_value, field_values,
  dataset_row, export_rows, is_exported, extra_fields, by_identity, build_dataset,
}

abbrev pub keys : {V : Type 0} → List (String × V) → List String
keys row = map (λ e. e.0) row

put-fresh :
    {V : Type 0} (key : String) (v : V) (row : List (String × V))
    → str_in key (keys row) ≡ false
    → put key v row ≡ row ++ (key, v) ∷ []
unfolding put
put-fresh key v [] h = refl
put-fresh key v ((k, w) ∷ row) h = ground (arith, put-fresh key v row, eq_iff k key, eq_iff key k)

-- no name comes twice
abbrev pub Distinct : List String → Type 0
Distinct [] = Unit
Distinct (x ∷ xs) = (str_in x xs ≡ false) × Distinct xs

-- no name of the one list is in the other
abbrev pub Apart : List String → List String → Type 0
Apart names others = All (λ name. str_in name others ≡ false) names

str_in-append :
    (s : String) (xs ys : List String) → str_in s (xs ++ ys) ≡ (str_in s xs || str_in s ys)
str_in-append s [] ys = refl
str_in-append s (x ∷ xs) ys = ground (arith, str_in-append s xs ys)

keys-append :
    {V : Type 0} (row rest : List (String × V)) → keys (row ++ rest) ≡ keys row ++ keys rest
keys-append [] rest = refl
keys-append (e ∷ row) rest = ap (λ l. e.0 ∷ l) (keys-append row rest)

Apart-snoc :
    (names others : List String) (name : String)
    → Apart names others
    → str_in name names ≡ false
    → Apart names (others ++ name ∷ [])
Apart-snoc [] others name a h = tt
Apart-snoc (x ∷ names) others name a h = (
  ground (arith, str_in-append x others (name ∷ []), eq_iff x name, eq_iff name x),
  Apart-snoc names others name a.1 (ground arith),
)

Apart-nil : (fields : List String) → Apart fields []
Apart-nil [] = tt
Apart-nil (field ∷ fields) = (refl, Apart-nil fields)

ltb-true : (a b : ℕ) → a < b → ltb a b ≡ true
ltb-true a b h = ground arith

ltb-false : (a b : ℕ) → b ≤ a → ltb a b ≡ false
ltb-false a b h = ground arith

module _ {Number : Type 0} where
  -- the columns of the plan's fields
  abbrev pub field_columns : List String → ExportRecord Number → Row Number
  field_columns fields r = map (λ field. (field, field_value field r)) fields

  -- the columns that the options ask for
  abbrev pub extra_columns : ExportOptions → ExportRecord Number → Row Number
  extra_columns options r =
      (if options.include_validation_metadata
        then ("validation_status", text r.validation_status) ∷ ("quality", text r.quality) ∷ []
        else [])
      ++ (if options.include_provenance_metadata
          then ("record_identity", text r.record_identity) ∷ []
          else [])

  keys-field_columns :
      (fields : List String) (r : ExportRecord Number) → keys (field_columns fields r) ≡ fields
  keys-field_columns [] r = refl
  keys-field_columns (field ∷ fields) r = ap (λ l. field ∷ l) (keys-field_columns fields r)

  field_values-fresh :
      (r : ExportRecord Number) (fields : List String) (row : Row Number)
      → Distinct fields
      → Apart fields (keys row)
      → field_values r fields row ≡ row ++ field_columns fields r
  unfolding field_values
  field_values-fresh r [] row d a = sym (append-nil row)
  field_values-fresh r (field ∷ fields) row d a =
      let fresh = put-fresh field (field_value field r) row a.0 in
      let apart = Apart-snoc fields (keys row) field a.1 d.0 in
      rw fresh (
        field_values-fresh r fields (row ++ (field, field_value field r) ∷ []) d.1
          (rw (keys-append row ((field, field_value field r) ∷ [])) apart)
        ∙ append_assoc row ((field, field_value field r) ∷ []) (field_columns fields r))

  put-columns :
      (fields : List String) (r : ExportRecord Number) (key : String) (v : Value Number)
      (more : Row Number)
      → str_in key fields ≡ false
      → str_in key (keys more) ≡ false
      → put key v (field_columns fields r ++ more)
        ≡ field_columns fields r ++ (more ++ (key, v) ∷ [])
  put-columns fields r key v more h k =
      put-fresh key v (field_columns fields r ++ more) (
        rw
          (
            keys-append (field_columns fields r) more,
            keys-field_columns fields r,
            str_in-append key fields (keys more),
            h,
          )
          k)
      ∙ append_assoc (field_columns fields r) more ((key, v) ∷ [])

  put-columns_first :
      (fields : List String) (r : ExportRecord Number) (key : String) (v : Value Number)
      → str_in key fields ≡ false
      → put key v (field_columns fields r) ≡ field_columns fields r ++ (key, v) ∷ []
  put-columns_first fields r key v h =
      put-fresh key v (field_columns fields r) (rw (keys-field_columns fields r) h)

  abbrev validation_columns : ExportRecord Number → Row Number
  validation_columns r =
      ("validation_status", text r.validation_status) ∷ ("quality", text r.quality) ∷ []

  put-validation :
      (fields : List String) (r : ExportRecord Number)
      → str_in "validation_status" fields ≡ false
      → str_in "quality" fields ≡ false
      → put "quality"
          (text r.quality)
          (put "validation_status" (text r.validation_status) (field_columns fields r))
        ≡ field_columns fields r ++ validation_columns r
  put-validation fields r h k =
      ap (put "quality" (text r.quality))
        (put-columns_first fields r "validation_status" (text r.validation_status) h)
      ∙ put-columns fields r "quality" (text r.quality)
          (("validation_status", text r.validation_status) ∷ []) k refl

  -- A row has the plan's fields and then the columns that are asked for, in this order.
  dataset_row-columns :
      (fields : List String) (validation provenance : Bool) (options : ExportOptions)
      (r : ExportRecord Number)
      → options.include_validation_metadata ≡ validation
      → options.include_provenance_metadata ≡ provenance
      → Distinct fields
      → Apart (extra_fields options) fields
      → dataset_row fields options r ≡ field_columns fields r ++ extra_columns options r
  unfolding dataset_row
  dataset_row-columns fields false false options r v p d a =
      rw (v, p) (field_values-fresh r fields [] d (Apart-nil fields) ∙ sym (append-nil _))
  dataset_row-columns fields false true options r v p d a =
      let a' = rw (v, p) at a in
      rw (v, p, field_values-fresh r fields [] d (Apart-nil fields))
        (put-columns_first fields r "record_identity" (text r.record_identity) a'.0)
  dataset_row-columns fields true false options r v p d a =
      let a' = rw (v, p) at a in
      rw (v, p, field_values-fresh r fields [] d (Apart-nil fields))
        (put-validation fields r a'.0 a'.1.0)
  dataset_row-columns fields true true options r v p d a =
      let a' = rw (v, p) at a in
      rw
        (
          v,
          p,
          field_values-fresh r fields [] d (Apart-nil fields),
          put-validation fields r a'.0 a'.1.0,
        )
        (put-columns fields r "record_identity" (text r.record_identity) (validation_columns r)
          a'.1.1.0 refl)

  abbrev exports : ExportOptions → ExportRecord Number → Bool
  exports options r = is_exported options.record_policy r.validation_status

  -- the rows that the records of the policy have
  abbrev pub expected_rows :
      List String → ExportOptions → List (ExportRecord Number) → List (Row Number)
  expected_rows fields options records =
      map (λ r. field_columns fields r ++ extra_columns options r)
        (where_ (exports options) records)

  export_rows-expected :
      (fields : List String) (options : ExportOptions) (records : List (ExportRecord Number))
      → Distinct fields
      → Apart (extra_fields options) fields
      → export_rows fields options records ≡ expected_rows fields options records
  unfolding export_rows
  export_rows-expected fields options [] d a = refl
  export_rows-expected fields options (r ∷ records) d a =
      let row = dataset_row-columns fields _ _ options r refl refl d a in
      let rest = export_rows-expected fields options records d a in
      elim (Bool-cases (exports options r)) [ inl e ↦ rw (e, row, rest) | inr e ↦ rw (e, rest) ]

  length-expected_rows :
      (fields : List String) (options : ExportOptions) (records : List (ExportRecord Number))
      → length (expected_rows fields options records) ≡ count_if (exports options) records
  length-expected_rows fields options [] = refl
  length-expected_rows fields options (r ∷ records) =
      ground (arith, length-expected_rows fields options records)

  keys-extra_columns :
      (validation provenance : Bool) (options : ExportOptions) (r : ExportRecord Number)
      → options.include_validation_metadata ≡ validation
      → options.include_provenance_metadata ≡ provenance
      → keys (extra_columns options r) ≡ extra_fields options
  keys-extra_columns false false options r v p = rw (v, p)
  keys-extra_columns false true options r v p = rw (v, p)
  keys-extra_columns true false options r v p = rw (v, p)
  keys-extra_columns true true options r v p = rw (v, p)

  keys-expected_rows :
      (fields : List String) (options : ExportOptions) (records : List (ExportRecord Number))
      → All
          (λ row. keys row ≡ fields ++ extra_fields options)
          (expected_rows fields options records)
  keys-expected_rows fields options [] = tt
  keys-expected_rows fields options (r ∷ records) =
      let rest = keys-expected_rows fields options records in
      let row =
        keys-append (field_columns fields r) (extra_columns options r)
        ∙ ap (λ l. l ++ keys (extra_columns options r)) (keys-field_columns fields r)
        ∙ ap (λ l. fields ++ l) (keys-extra_columns _ _ options r refl refl) in
      elim (Bool-cases (exports options r)) [ inl e ↦ rw e (row, rest) | inr e ↦ rw e rest ]

  -- For a plan whose field names are distinct, and are not those of the extra columns that the options
  -- ask for: more records than the limit are refused; otherwise the dataset's header is the plan's
  -- fields and the extra columns, its rows are those of the records that the policy keeps, sorted by
  -- identity, each with one value for each column of the header in that order, and there are as many
  -- rows as the policy keeps records.
  pub build_dataset_lem :
      (fields : List String) (plan_version run_id max_records : ℕ)
      (records : List (ExportRecord Number)) (options : ExportOptions)
      → Distinct fields
      → Apart (extra_fields options) fields
      → (max_records < length records
          → build_dataset fields plan_version run_id records options max_records
            ≡ err export_too_large)
        × (length records ≤ max_records
            → (d : CanonicalExportDataset Number) × (build_dataset fields plan_version run_id
                  records options max_records
                ≡ ok d)
              × (d.fields ≡ fields ++ extra_fields options)
              × (d.rows ≡ expected_rows fields options (sort_by by_identity records))
              × (All (λ row. keys row ≡ d.fields) d.rows)
              × (length d.rows
                  ≡ count_if (λ r. is_exported options.record_policy r.validation_status) records))
  unfolding build_dataset
  build_dataset_lem fields plan_version run_id max_records records options d a =
      let rows = export_rows-expected fields options (sort_by by_identity records) d a in
      (
        λ large. rw (ltb-true max_records (length records) large),
        λ small. (
          record {
            fields = fields ++ extra_fields options;
            rows = export_rows fields options (sort_by by_identity records);
            validation_run_id = run_id;
            plan_version = plan_version;
            options = options;
          },
          rw (ltb-false max_records (length records) small),
          refl,
          rows,
          rw rows (keys-expected_rows fields options (sort_by by_identity records)),
          ap length rows
              ∙ length-expected_rows fields options (sort_by by_identity records)
              ∙ count_if-sort_by by_identity (exports options) records,
        ),
      )
