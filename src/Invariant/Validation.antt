-- ===== src/Invariant/Validation.antt =====
-- The validation methods keep the invariant.
use web_data_extraction_engi.Prelude.{ℕ, String, List, [], ◌∷◌}
use web_data_extraction_engi.Store.{Job, Record, Totals, Command}
use web_data_extraction_engi.Service.Columns.{Failure}
use web_data_extraction_engi.Service.Validation.{
  ValidationOperation, Verdict, claim_validation, writer_for, validate_records, queue_export,
  queue_exports, complete_validation_run, fail_validation,
}
use web_data_extraction_engi.Invariant.Rules.{Keeps, Keeps-bind}
use web_data_extraction_engi.Invariant.Lifecycle.{service_rules}

pub Keeps-claim_validation :
    (c : Command) (worker_id : String) (lease_ms now : ℕ)
    → Keeps (claim_validation c worker_id lease_ms now)
unfolding claim_validation
Keeps-claim_validation c worker_id lease_ms now = search service_rules depth 30

pub Keeps-writer_for : (f : String) → Keeps (writer_for f)
unfolding writer_for
Keeps-writer_for f = search service_rules

module _ (op : ValidationOperation) (validate : Record → Verdict) where
  Keeps-validate_records : (l : List Record) (t : Totals) → Keeps (validate_records op validate l t)
  unfolding validate_records
  Keeps-validate_records [] t = search service_rules
  Keeps-validate_records (r ∷ rest) t =
      Keeps-bind _ _ (search service_rules)
        (λ _. Keeps-bind _ _ (search service_rules) (λ _. Keeps-validate_records rest _))

  Keeps-queue_export :
      (job : Job) (f key : String) (ids : ℕ → ℕ) (now : ℕ)
      → Keeps (queue_export op validate job f key ids now)
  unfolding queue_export
  Keeps-queue_export job f key ids now = search (service_rules, Keeps-writer_for) depth 20

  Keeps-queue_exports :
      (job : Job) (l : List String) (key : String) (ids : ℕ → ℕ) (now : ℕ)
      → Keeps (queue_exports op validate job l key ids now)
  unfolding queue_exports
  Keeps-queue_exports job [] key ids now = search service_rules
  Keeps-queue_exports job (f ∷ rest) key ids now =
      Keeps-bind _ _ (Keeps-queue_export job f key ids now)
        (λ _. Keeps-queue_exports job rest key ids now)

  pub Keeps-complete_validation_run :
      (key : String) (ids : ℕ → ℕ) (now : ℕ)
      → Keeps (complete_validation_run op validate key ids now)
  unfolding complete_validation_run
  Keeps-complete_validation_run key ids now =
      search (service_rules, Keeps-validate_records, Keeps-queue_exports) depth 30

pub Keeps-fail_validation :
    (c : Command) (e : Failure) (max_attempts now : ℕ)
    → Keeps (fail_validation c e max_attempts now)
unfolding fail_validation
Keeps-fail_validation c e max_attempts now = search service_rules depth 30
