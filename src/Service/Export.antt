-- ===== src/Service/Export.antt =====
-- `claim_export`, `export_cancelled`, `complete_export` and `fail_export`.
use web_data_extraction_engi.Prelude.{
  ℕ, ◌+◌, max, Bool, true, false, not, ◌&&◌, ◌||◌, List, [], ◌∷◌, Option, none, some, String, first,
  all, where_, is_some, maybe, if◌then◌else◌, ◌==◌, ltb,
}
use web_data_extraction_engi.Domain.{exporting, completed, cancelled, failed, status_eq}
use web_data_extraction_engi.Store.{
  Db, Job, ExportJob, ExportStatus, ExportOptions, Command, OperationKey,
}
use web_data_extraction_engi.Store.Tx.{
  Tx, ◌>>=◌, ◌>>◌, pure, raise, gets, some_or, invalid_transition, key_error,
}
use web_data_extraction_engi.Store.Jobs.{modify_job}
use web_data_extraction_engi.Store.Events.{append_event}
use web_data_extraction_engi.Store.Tables.{add_file, modify_export}
use web_data_extraction_engi.Service.Columns.{
  Failure, take_lease, release_lease, set_failure, complete_progress,
}
use web_data_extraction_engi.Service.Lifecycle.{job_row, transition}
use web_data_extraction_engi.Service.Validation.{run_row, is_completed_run, writer_for}

pub record ExportOperation : Type 0 where
  pub job_id : ℕ
  pub project_id : ℕ
  pub correlation_id : ℕ
  pub operation_key : OperationKey
  pub export_job_id : ℕ
  pub validation_run_id : ℕ
  pub format_name : String
  pub options : ExportOptions

abbrev pub export_row : ℕ → Db → Option ExportJob
export_row id db = first (λ e. e.id == id) db.exports

abbrev pub export_is : ExportStatus → ExportStatus → Bool
export_is ExportStatus.queued ExportStatus.queued = true
export_is ExportStatus.running ExportStatus.running = true
export_is ExportStatus.completed ExportStatus.completed = true
export_is ExportStatus.failed ExportStatus.failed = true
export_is ExportStatus.cancelled ExportStatus.cancelled = true
export_is _ _ = false

-- `job.status == CANCELLED or job.cancel_requested_at`
abbrev pub is_cancelled : Job → Bool
is_cancelled job = status_eq job.status cancelled || is_some job.cancel_requested_at

unfoldable pub set_export_status : ExportStatus → ExportJob → ExportJob
set_export_status status e = record e { status = status }

unfoldable pub start_export : ℕ → ℕ → ExportJob → ExportJob
start_export attempt now e = record e {
  status = ExportStatus.running;
  attempt = max e.attempt attempt;
  started_at = maybe e.started_at (some now) some;
}

-- the end of `claim_export`
grant_export : Job → ExportJob → Command → String → ℕ → ℕ → Tx (Option ExportOperation)
grant_export job export command worker_id lease_ms now = do
  found_run ← gets (run_row export.validation_run_id)
  run ← some_or invalid_transition found_run
  if not (is_completed_run run.status) then raise invalid_transition else do
    modify_export export.id (start_export command.attempt now)
    modify_job command.job_id (take_lease worker_id (now + lease_ms))
    append_event command.job_id "export_started" exporting none command.correlation_id
    pure (
        some (record {
          job_id = command.job_id;
          project_id = job.project_id;
          correlation_id = command.correlation_id;
          operation_key = command.operation_key;
          export_job_id = export.id;
          validation_run_id = run.id;
          format_name = export.format;
          options = export.options;
        }))

unfoldable pub claim_export : Command → String → ℕ → ℕ → Tx (Option ExportOperation)
unfolding grant_export
claim_export command worker_id lease_ms now = do
  export_id ← some_or key_error command.export_job_id
  found ← gets (job_row command.job_id)
  found_export ← gets (export_row export_id)
  maybe found (pure none) λ job. maybe found_export (pure none) λ export.
      if not (export.job_id == command.job_id) || export_is export.status ExportStatus.completed
      then pure none
      else if is_cancelled job
      then (do modify_export export.id (set_export_status ExportStatus.cancelled); pure none)
      else if not (status_eq job.status exporting)
          || not (export_is export.status ExportStatus.queued)
      then pure none
      else grant_export job export command worker_id lease_ms now

unfoldable pub export_cancelled : ExportOperation → Tx Bool
export_cancelled op = do found ← gets (job_row op.job_id); pure (maybe found false is_cancelled)

-- the reference of the stored bytes
pub record StoredFile : Type 0 where
  pub storage_key : String
  pub media_type : String
  pub byte_size : ℕ
  pub checksum : String
  pub expires_at : Option ℕ

unfoldable pub finish_export : ℕ → ExportJob → ExportJob
finish_export now e = record e {
  status = ExportStatus.completed;
  completed_at = some now;
  error_code = none;
  error_message = none;
}

-- `statuses and all(status == "COMPLETED" for status in statuses)`
abbrev pub all_completed : List ExportJob → Bool
all_completed [] = false
all_completed (e ∷ es) = all (λ x. export_is x.status ExportStatus.completed) (e ∷ es)

abbrev pub exports_of : ℕ → Db → List ExportJob
exports_of job_id db = where_ (λ e. e.job_id == job_id) db.exports

-- the last export completes the job
unfoldable pub complete_job : ℕ → ℕ → ℕ → Tx (Unit {0})
complete_job job_id correlation_id now = do
  modify_job job_id complete_progress
  transition job_id exporting completed correlation_id now

-- the part of `complete_export` after its guards
store_export : ExportOperation → ExportJob → StoredFile → ℕ → Tx Bool
store_export op export file now = do
  writer_for export.format
  add_file (record {
    export_job_id = export.id;
    storage_key = file.storage_key;
    media_type = file.media_type;
    byte_size = file.byte_size;
    checksum = file.checksum;
    expires_at = file.expires_at;
  })
  modify_export export.id (finish_export now)
  modify_job op.job_id release_lease
  append_event op.job_id "export_completed" exporting none op.correlation_id
  exports ← gets (exports_of op.job_id)
  if all_completed exports then complete_job op.job_id op.correlation_id now else pure tt
  pure true

unfoldable pub complete_export : ExportOperation → StoredFile → ℕ → Tx Bool
unfolding store_export
complete_export op file now = do
  found ← gets (job_row op.job_id)
  found_export ← gets (export_row op.export_job_id)
  maybe found (pure false) λ job. maybe found_export (pure false) λ export.
      if is_cancelled job
      then pure false
      else if not (status_eq job.status exporting) || export_is export.status ExportStatus.completed
      then pure false
      else store_export op export file now

unfoldable pub set_export_error : Failure → ExportJob → ExportJob
set_export_error error e = record e {
  error_code = some error.code;
  error_message = some error.message;
}

unfoldable pub requeue_export : ExportJob → ExportJob
requeue_export e = record e { attempt = e.attempt + 1; status = ExportStatus.queued }

-- the part of `fail_export` after its guards
record_failure : ExportJob → Command → Failure → ℕ → ℕ → Tx (Option ℕ)
record_failure export command error max_attempts now = do
  modify_export export.id (set_export_error error)
  modify_job command.job_id (set_failure error)
  if error.retryable && ltb export.attempt max_attempts
      then (do
        modify_export export.id requeue_export
        append_event command.job_id "export_retry_scheduled" exporting none command.correlation_id
        pure (some (export.attempt + 1)))
      else do
        modify_export export.id (set_export_status ExportStatus.failed)
        append_event command.job_id "export_failed" exporting none command.correlation_id
        transition command.job_id exporting failed command.correlation_id now
        pure none

unfoldable pub fail_export : Command → Failure → ℕ → ℕ → Tx (Option ℕ)
unfolding record_failure
fail_export command error max_attempts now = do
  export_id ← some_or key_error command.export_job_id
  found ← gets (job_row command.job_id)
  found_export ← gets (export_row export_id)
  maybe found (pure none) λ job. maybe found_export (pure none) λ export.
      if not (status_eq job.status exporting)
      then pure none
      else if is_cancelled job
      then (do modify_export export.id (set_export_status ExportStatus.cancelled); pure none)
      else record_failure export command error max_attempts now
