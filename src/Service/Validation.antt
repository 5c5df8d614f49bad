-- ===== src/Service/Validation.antt =====
-- `claim_validation`, `complete_validation_run` and `fail_validation`.
use web_data_extraction_engi.Prelude.{
  ℕ, ◌+◌, Bool, true, false, not, ◌&&◌, ◌||◌, List, [], ◌∷◌, Option, none, some, String, first,
  length, where_, is_some, maybe, if◌then◌else◌, ◌==◌, leb, str_in,
}
use web_data_extraction_engi.Domain.{validating, exporting, cancelled, failed, status_eq}
use web_data_extraction_engi.Store.{
  Db, Job, Record, CanonicalPlan, ValidationRun, RunStatus, Totals, ExportStatus, ExportOptions,
  RecordPolicy, Command, OperationKey, export_key, run_export,
}
use web_data_extraction_engi.Store.Tx.{
  Tx, ◌>>=◌, ◌>>◌, pure, raise, gets, some_or, invalid_transition, key_error, unsupported_format,
}
use web_data_extraction_engi.Store.Jobs.{modify_job}
use web_data_extraction_engi.Store.Events.{append_event}
use web_data_extraction_engi.Store.Tables.{add_result, add_export, add_work, modify_run}
use web_data_extraction_engi.Service.Columns.{
  Failure, take_lease, release_lease, set_failure, count_attempt, raise_progress,
}
use web_data_extraction_engi.Service.Lifecycle.{job_row, transition}
use web_data_extraction_engi.Service.Inventory.{latest_plan}

pub record ValidationOperation : Type 0 where
  pub job_id : ℕ
  pub project_id : ℕ
  pub correlation_id : ℕ
  pub operation_key : OperationKey
  pub validation_run_id : ℕ
  pub plan : CanonicalPlan

abbrev pub run_row : ℕ → Db → Option ValidationRun
run_row id db = first (λ r. r.id == id) db.runs

abbrev pub is_completed_run : RunStatus → Bool
is_completed_run RunStatus.completed = true
is_completed_run _ = false

unfoldable pub start_run : ℕ → ValidationRun → ValidationRun
start_run now r = record r { status = RunStatus.running; started_at = some now }

-- the end of `claim_validation`
grant_validation : Job → Command → ValidationRun → String → ℕ → ℕ → Tx (Option ValidationOperation)
grant_validation job command run worker_id lease_ms now = do
  plan ← gets (latest_plan command.job_id)
  plan_row ← some_or invalid_transition plan
  modify_run run.id (start_run now)
  modify_job command.job_id (take_lease worker_id (now + lease_ms))
  append_event command.job_id "validation_started" validating none command.correlation_id
  pure (
      some (record {
        job_id = command.job_id;
        project_id = job.project_id;
        correlation_id = command.correlation_id;
        operation_key = command.operation_key;
        validation_run_id = run.id;
        plan = plan_row.plan;
      }))

unfoldable pub claim_validation : Command → String → ℕ → ℕ → Tx (Option ValidationOperation)
unfolding grant_validation
claim_validation command worker_id lease_ms now = do
  run_id ← some_or key_error command.validation_run_id
  found ← gets (job_row command.job_id)
  found_run ← gets (run_row run_id)
  maybe found (pure none) λ job. maybe found_run (pure none) λ run.
      if not (status_eq job.status validating) || is_completed_run run.status
      then pure none
      else if is_some job.cancel_requested_at
      then (do transition command.job_id validating cancelled command.correlation_id now; pure none)
      else grant_validation job command run worker_id lease_ms now

-- `RecordValidation`, as far as `complete_validation_run` reads it
pub record Verdict : Type 0 where
  pub status : String
  pub quality : String
  pub passed : ℕ
  pub failed : ℕ
  pub warned : ℕ
  pub unresolved : ℕ

abbrev pub add_verdict : Totals → Verdict → Totals
add_verdict t v = record {
  records = t.records + 1;
  passed = t.passed + v.passed;
  failed = t.failed + v.failed;
  warnings = t.warnings + v.warned;
  unresolved = t.unresolved + v.unresolved;
}

abbrev pub no_totals : Totals
no_totals = record { records = 0; passed = 0; failed = 0; warnings = 0; unresolved = 0 }

-- the keys of `WRITERS` in export_service.py
abbrev pub writer_formats : List String
writer_formats = "csv" ∷ "json" ∷ "xlsx" ∷ "pdf" ∷ "docx" ∷ "md" ∷ "txt" ∷ "html" ∷ []

-- `writer_for`, as far as it raises
unfoldable pub writer_for : String → Tx (Unit {0})
writer_for format_name =
    if str_in format_name writer_formats then pure tt else raise unsupported_format

abbrev default_options : ExportOptions
default_options = record {
  record_policy = RecordPolicy.all_records;
  include_validation_metadata = false;
  include_provenance_metadata = false;
}

-- `validate` is the validator at a record; `request_key` the fingerprint of the run's request;
-- `ids n` the UUID that is drawn for the n-th export row
module _ (op : ValidationOperation) (validate : Record → Verdict) where
  unfoldable pub validate_records : List Record → Totals → Tx Totals
  validate_records [] totals = pure totals
  validate_records (r ∷ rest) totals = do
    add_result (record {
      job_id = op.job_id;
      record_id = r.id;
      validation_run_id = op.validation_run_id;
      status = (validate r).status;
      quality = (validate r).quality;
    })
    append_event op.job_id "record_validation_completed" validating none op.correlation_id
    validate_records rest (add_verdict totals (validate r))

  unfoldable pub finish_run : Totals → ℕ → ValidationRun → ValidationRun
  finish_run totals now r = record r {
    status = RunStatus.completed;
    completed_at = some now;
    summary = some totals;
  }

  -- the body of the loop over the output formats
  unfoldable pub queue_export : Job → String → String → (ℕ → ℕ) → ℕ → Tx (Unit {0})
  queue_export job format_name request_key ids now = do
    writer_for format_name
    rows ← gets (λ db. length db.exports)
    add_export (record {
      id = ids rows;
      job_id = op.job_id;
      validation_run_id = op.validation_run_id;
      format = format_name;
      request_key = request_key;
      options = default_options;
      status = ExportStatus.queued;
      error_code = none;
      error_message = none;
      attempt = 0;
      started_at = none;
      completed_at = none;
    })
    add_work run_export
        (record {
          job_id = op.job_id;
          project_id = job.project_id;
          correlation_id = op.correlation_id;
          operation_key = export_key (ids rows) 1;
          attempt = 1;
          page_id = none;
          validation_run_id = some op.validation_run_id;
          export_job_id = some (ids rows);
        })
        1 now now

  unfoldable pub queue_exports : Job → List String → String → (ℕ → ℕ) → ℕ → Tx (Unit {0})
  queue_exports job [] request_key ids now = pure tt
  queue_exports job (f ∷ rest) request_key ids now = do
    queue_export job f request_key ids now
    queue_exports job rest request_key ids now

  -- the part of `complete_validation_run` after its guards
  finish_validation : Job → List Record → String → (ℕ → ℕ) → ℕ → Tx (Unit {0})
  finish_validation job records request_key ids now = do
    totals ← validate_records records no_totals
    modify_run op.validation_run_id (finish_run totals now)
    modify_job op.job_id release_lease
    modify_job op.job_id (raise_progress 80)
    append_event op.job_id "validation_completed" validating none op.correlation_id
    transition op.job_id validating exporting op.correlation_id now
    queue_exports job job.output_formats request_key ids now
    append_event op.job_id "exports_queued" exporting none op.correlation_id

  abbrev pub has_rows : List Record → Bool
  has_rows [] = false
  has_rows (r ∷ rest) = true

  -- The loop asks for a cancellation before its first record, and no record changes the answer.
  unfoldable pub complete_validation_run : String → (ℕ → ℕ) → ℕ → Tx (Unit {0})
  unfolding finish_validation
  complete_validation_run request_key ids now = do
    found ← gets (job_row op.job_id)
    found_run ← gets (run_row op.validation_run_id)
    records ← gets (λ db. where_ (λ r. r.job_id == op.job_id) db.records)
    maybe found (pure tt) λ job. maybe found_run (pure tt) λ run.
        if not (status_eq job.status validating)
        then pure tt
        else if is_some job.cancel_requested_at && has_rows records
        then transition op.job_id validating cancelled op.correlation_id now
        else finish_validation job records request_key ids now

fail_for_good : Command → ℕ → Tx (Option ℕ)
fail_for_good command now = do
  append_event command.job_id "validation_failed" validating none command.correlation_id
  transition command.job_id validating failed command.correlation_id now
  pure none

retry_validation : Job → Command → ℕ → ℕ → Tx (Option ℕ)
unfolding fail_for_good
retry_validation job command max_attempts now = do
  modify_job command.job_id count_attempt
  if leb (job.attempt + 1) max_attempts
      then (do
        append_event command.job_id "validation_retry_scheduled" validating none
            command.correlation_id
        pure (some (job.attempt + 1)))
      else fail_for_good command now

unfoldable pub fail_validation : Command → Failure → ℕ → ℕ → Tx (Option ℕ)
unfolding retry_validation
fail_validation command error max_attempts now = do
  found ← gets (job_row command.job_id)
  maybe found (pure none) λ job. if not (status_eq job.status validating) then pure none else do
    modify_job command.job_id (set_failure error)
    if error.retryable
        then retry_validation job command max_attempts now
        else fail_for_good command now
