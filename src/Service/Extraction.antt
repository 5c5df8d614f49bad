-- ===== src/Service/Extraction.antt =====
-- `claim_extraction`, `complete_extraction_page` and `fail_extraction`.
use web_data_extraction_engi.Prelude.{
  ℕ, zero, suc, ◌+◌, ◌-◌, min, Bool, true, false, not, ◌&&◌, List, [], ◌∷◌, Option, none, some,
  String, first, first_by, where_, take, length, count_if, is_some, maybe, if◌then◌else◌, ◌==◌, leb,
}
use web_data_extraction_engi.Domain.{
  extracting, validating, cancelled, failed, status_eq, status_in,
}
use web_data_extraction_engi.Store.{
  Db, Job, Page, PageStatus, PageExtraction, CanonicalPlan, RunStatus, Command, OperationKey,
  extraction_page_key, validation_key, run_extraction, run_validation,
}
use web_data_extraction_engi.Store.Tx.{
  Tx, ◌>>=◌, ◌>>◌, pure, raise, gets, some_or, invalid_transition,
}
use web_data_extraction_engi.Store.Jobs.{modify_job}
use web_data_extraction_engi.Store.Events.{append_event}
use web_data_extraction_engi.Store.Tables.{add_run, add_work, modify_page, try_add_record}
use web_data_extraction_engi.Service.Columns.{
  Failure, take_lease, release_lease, set_failure, count_attempt, raise_progress, count_extracted,
}
use web_data_extraction_engi.Service.Lifecycle.{job_row, source_row, transition}
use web_data_extraction_engi.Service.Inventory.{latest_plan, page_is, page_order, is_requested}

pub record ExtractionOperation : Type 0 where
  pub job_id : ℕ
  pub project_id : ℕ
  pub correlation_id : ℕ
  pub operation_key : OperationKey
  pub page_id : ℕ
  pub page_url : String
  pub source_domain : String
  pub plan : CanonicalPlan

-- `ExtractionResult` of extraction_types.py: the identity of each record, which the table's
-- constraint reads, the warnings and the flag
pub record ExtractionResult : Type 0 where
  pub identities : List String
  pub warnings : List String
  pub document_truncated : Bool

-- `extraction_status.is_(None)`, with `"PENDING"` too where `retried` says so
abbrev pub awaits_extraction : Bool → Option PageExtraction → Bool
awaits_extraction retried none = true
awaits_extraction retried (some PageExtraction.pending) = retried
awaits_extraction retried (some _) = false

-- the first visited page of the job that waits for its extraction
abbrev pub next_extraction : ℕ → Bool → Option ℕ → Db → Option Page
next_extraction job_id retried requested db = first_by (page_order (λ p. p.visited_at)) (
    where_
      (λ p.
        p.job_id == job_id
        && page_is p.status PageStatus.visited
        && awaits_extraction retried p.extraction_status
        && is_requested requested p)
      db.pages)

unfoldable pub start_extraction : ℕ → Page → Page
start_extraction now p = record p {
  extraction_status = some PageExtraction.extracting;
  extraction_started_at = some now;
}

-- the end of `claim_extraction`, for the page that it chose
grant_extraction : Job → Page → Command → String → ℕ → ℕ → Tx (Option ExtractionOperation)
grant_extraction job page command worker_id lease_ms now = do
  plan ← gets (latest_plan command.job_id)
  source ← gets (source_row job.source_id)
  plan_row ← some_or invalid_transition plan
  source_row ← some_or invalid_transition source
  modify_page page.id (start_extraction now)
  modify_job command.job_id (take_lease worker_id (now + lease_ms))
  append_event command.job_id "page_extraction_started" extracting none command.correlation_id
  pure (
      some (record {
        job_id = command.job_id;
        project_id = job.project_id;
        correlation_id = command.correlation_id;
        operation_key = command.operation_key;
        page_id = page.id;
        page_url = page.canonical_url;
        source_domain = source_row.domain;
        plan = plan_row.plan;
      }))

unfoldable pub claim_extraction : Command → String → ℕ → ℕ → Tx (Option ExtractionOperation)
unfolding grant_extraction
claim_extraction command worker_id lease_ms now = do
  found ← gets (job_row command.job_id)
  maybe found (pure none) λ job.
      if status_in job.status (cancelled ∷ failed ∷ [])
      then pure none
      else if not (status_eq job.status extracting)
      then raise invalid_transition
      else if is_some job.cancel_requested_at
      then (do transition command.job_id extracting cancelled command.correlation_id now; pure none)
      else do
        chosen ← gets (next_extraction command.job_id true command.page_id)
        maybe chosen (pure none) λ page. grant_extraction job page command worker_id lease_ms now

module _ (op : ExtractionOperation) (ids : ℕ → ℕ) where
  -- a duplicate is reported, and the answer is the new number of created records
  note_duplicate : Bool → ℕ → Tx ℕ
  note_duplicate inserted created = if inserted then pure (created + 1) else do
    append_event op.job_id "record_duplicate" extracting none op.correlation_id
    pure created

  -- the body of the loop; `ids n` is the UUID that is drawn for the n-th record row
  unfoldable pub persist_record : String → ℕ → Tx ℕ
  unfolding note_duplicate
  persist_record identity created = do
    rows ← gets (λ db. length db.records)
    inserted ← try_add_record (record {
      id = ids rows;
      job_id = op.job_id;
      page_id = op.page_id;
      record_identity = identity;
      plan_version = op.plan.plan_version;
    })
    note_duplicate inserted created

  unfoldable pub persist_records : List String → ℕ → Tx ℕ
  persist_records [] created = pure created
  persist_records (identity ∷ rest) created = do
    created' ← persist_record identity created
    persist_records rest created'

-- `EXTRACTED` if a record was created, else `PARTIAL`
abbrev pub extraction_outcome : ℕ → PageExtraction
extraction_outcome zero = PageExtraction.partial
extraction_outcome (suc n) = PageExtraction.extracted

unfoldable pub finish_extraction : ExtractionResult → ℕ → ℕ → Page → Page
finish_extraction result created now p = record p {
  extraction_status = some (extraction_outcome created);
  extraction_completed_at = some now;
  extraction_report = some (record {
    records_created = created;
    warnings = result.warnings;
    truncated = result.document_truncated;
  });
}

-- one `field_extraction_warning` for each warning
unfoldable pub append_warnings : ExtractionOperation → List String → Tx (Unit {0})
append_warnings op [] = pure tt
append_warnings op (w ∷ rest) = do
  append_event op.job_id "field_extraction_warning" extracting none op.correlation_id
  append_warnings op rest

-- `_queue_extraction_page`
unfoldable pub queue_extraction_page : Job → ExtractionOperation → ℕ → ℕ → Tx (Unit {0})
queue_extraction_page job op page_id now =
    add_work run_extraction
      (record {
        job_id = op.job_id;
        project_id = job.project_id;
        correlation_id = op.correlation_id;
        operation_key = extraction_page_key op.job_id page_id op.plan.plan_version;
        attempt = 1;
        page_id = some page_id;
        validation_run_id = none;
        export_job_id = none;
      })
      1 now now

-- the hand-off to the validation; `run_id` is the UUID of the new run
unfoldable pub hand_to_validation : Job → ExtractionOperation → ℕ → ℕ → Tx (Unit {0})
hand_to_validation job op run_id now = do
  modify_job op.job_id (raise_progress 60)
  append_event op.job_id "extraction_completed" extracting none op.correlation_id
  transition op.job_id extracting validating op.correlation_id now
  runs ← gets (λ db. count_if (λ r. r.job_id == op.job_id) db.runs)
  add_run (record {
    id = run_id;
    job_id = op.job_id;
    run_number = runs + 1;
    operation_key = validation_key op.job_id (runs + 1);
    status = RunStatus.queued;
    plan_version = op.plan.plan_version;
    summary = none;
    started_at = none;
    completed_at = none;
  })
  add_work run_validation
      (record {
        job_id = op.job_id;
        project_id = job.project_id;
        correlation_id = op.correlation_id;
        operation_key = validation_key op.job_id (runs + 1);
        attempt = 1;
        page_id = none;
        validation_run_id = some run_id;
        export_job_id = none;
      })
      1 now now

-- `allowed - existing_count`, at least 0
abbrev pub record_room : ExtractionOperation → ℕ → Db → ℕ
record_room op server_max_records db =
    min op.plan.limits.max_records server_max_records
    - count_if (λ r. r.job_id == op.job_id) db.records

-- the part of `complete_extraction_page` after its guards
store_records : Job → ExtractionOperation → ExtractionResult → ℕ → (ℕ → ℕ) → ℕ → ℕ → Tx (Unit {0})
store_records job op result server_max_records ids run_id now = do
  room ← gets (record_room op server_max_records)
  created ← persist_records op ids (take room result.identities) 0
  modify_page op.page_id (finish_extraction result created now)
  modify_job op.job_id (count_extracted created)
  append_warnings op (take 10 result.warnings)
  append_event op.job_id "page_extraction_completed" extracting none op.correlation_id
  modify_job op.job_id release_lease
  next_page ← gets (next_extraction op.job_id false none)
  maybe next_page (hand_to_validation job op run_id now)
      λ page. queue_extraction_page job op page.id now

unfoldable pub complete_extraction_page :
    ExtractionOperation → ExtractionResult → ℕ → (ℕ → ℕ) → ℕ → ℕ → Tx (Unit {0})
unfolding store_records
complete_extraction_page op result server_max_records ids run_id now = do
  found ← gets (job_row op.job_id)
  maybe found (pure tt) λ job.
      if status_in job.status (cancelled ∷ failed ∷ [])
      then pure tt
      else if not (status_eq job.status extracting)
      then raise invalid_transition
      else if is_some job.cancel_requested_at
      then transition op.job_id extracting cancelled op.correlation_id now
      else do
        page ← gets (λ db. first (λ p. p.id == op.page_id) db.pages)
        row ← some_or invalid_transition page
        store_records job op result server_max_records ids run_id now

unfoldable pub set_extraction_status : PageExtraction → Page → Page
set_extraction_status status p = record p { extraction_status = some status }

-- `page.extraction_status = status` for the page of the command, if it names one
unfoldable pub mark_extraction : Option ℕ → PageExtraction → Tx (Unit {0})
mark_extraction page_id status =
    maybe page_id (pure tt) (λ id. modify_page id (set_extraction_status status))

fail_for_good : Command → ℕ → Tx (Option ℕ)
fail_for_good command now = do
  append_event command.job_id "page_extraction_failed" extracting none command.correlation_id
  transition command.job_id extracting failed command.correlation_id now
  pure none

retry_extraction : Job → Command → ℕ → ℕ → Tx (Option ℕ)
unfolding fail_for_good
retry_extraction job command max_attempts now = do
  modify_job command.job_id count_attempt
  if leb (job.attempt + 1) max_attempts
      then (do
        mark_extraction command.page_id PageExtraction.pending
        append_event command.job_id "extraction_retry_scheduled" extracting none
            command.correlation_id
        pure (some (job.attempt + 1)))
      else fail_for_good command now

unfoldable pub fail_extraction : Command → Failure → ℕ → ℕ → Tx (Option ℕ)
unfolding retry_extraction
fail_extraction command error max_attempts now = do
  found ← gets (job_row command.job_id)
  maybe found (pure none) λ job.
      if not (status_eq job.status extracting)
      then pure none
      else if is_some job.cancel_requested_at
      then (do
        mark_extraction command.page_id PageExtraction.skipped
        transition command.job_id extracting cancelled command.correlation_id now
        pure none)
      else do
        mark_extraction command.page_id PageExtraction.failed
        modify_job command.job_id (set_failure error)
        if error.retryable
            then retry_extraction job command max_attempts now
            else fail_for_good command now
