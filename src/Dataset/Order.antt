-- ===== src/Dataset/Order.antt =====
-- export_service.py: the dataset does not depend on the order in which the records come.
use web_data_extraction_engi.Prelude.{
  ℕ, ◌≡◌, refl, false, ◌&&◌, List, ◌∷◌, String, arith, length, ap, ◌∙◌,
}
use web_data_extraction_engi.Prelude.Sorting.{
  str_leb-total, str_leb_trans, insert_by, sort_by, insert_by-insert_by,
}
use web_data_extraction_engi.Store.{ExportOptions}
use web_data_extraction_engi.Dataset.{ExportRecord, by_identity, build_dataset}

module _ {Number : Type 0} where
  -- Steps from one order of the records to another: each exchanges two neighbours whose identities
  -- differ.
  pub data Reordered : List (ExportRecord Number) → List (ExportRecord Number) → Type 0 where
    same : (records : List (ExportRecord Number)) → Reordered records records
    exchange :
        (r s : ExportRecord Number) (records : List (ExportRecord Number))
        → (by_identity r s && by_identity s r) ≡ false
        → Reordered (r ∷ s ∷ records) (s ∷ r ∷ records)
    below :
        (r : ExportRecord Number) {before after : List (ExportRecord Number)}
        → Reordered before after
        → Reordered (r ∷ before) (r ∷ after)
    step :
        {before between after : List (ExportRecord Number)}
        → Reordered before between
        → Reordered between after
        → Reordered before after

  sort_by-Reordered :
      {before after : List (ExportRecord Number)}
      → Reordered before after
      → sort_by by_identity before ≡ sort_by by_identity after
  unfolding sort_by
  sort_by-Reordered (same records) = refl
  sort_by-Reordered (exchange r s records h) =
      insert_by-insert_by by_identity (λ x y. str_leb-total x.record_identity y.record_identity)
        (λ x y z. str_leb_trans x.record_identity y.record_identity z.record_identity) r s
        (sort_by by_identity records) h
  sort_by-Reordered (below r move) = ap (insert_by by_identity r) (sort_by-Reordered move)
  sort_by-Reordered (step first_move rest) = sort_by-Reordered first_move ∙ sort_by-Reordered rest

  length-Reordered :
      {before after : List (ExportRecord Number)}
      → Reordered before after
      → length before ≡ length after
  length-Reordered (same records) = refl
  length-Reordered (exchange r s records h) = refl
  length-Reordered (below r move) = omega (arith, length-Reordered move)
  length-Reordered (step first_move rest) = length-Reordered first_move ∙ length-Reordered rest

  -- Records in another order, which neighbours of different identities exchanged after another lead
  -- to, give the same dataset, or the same error.
  pub build_dataset-Reordered :
      (fields : List String) (plan_version run_id max_records : ℕ) (options : ExportOptions)
      (before after : List (ExportRecord Number))
      → Reordered before after
      → build_dataset fields plan_version run_id before options max_records
        ≡ build_dataset fields plan_version run_id after options max_records
  unfolding build_dataset
  build_dataset-Reordered fields plan_version run_id max_records options before after move =
      rw (sort_by-Reordered move, length-Reordered move)
