-- ===== src/Service/Creation.antt =====
-- `create_job`: a request is accepted once for each idempotency key.
use web_data_extraction_engi.Prelude.{
  ℕ, false, not, ◌&&◌, List, Option, none, some, String, first, maybe, if◌then◌else◌, ◌==◌, str_eq,
}
use web_data_extraction_engi.Domain.{JobStatus, queued}
use web_data_extraction_engi.Store.{
  Db, Source, Job, JobOptions, IdempotencyKey, phase_key, run_planning,
}
use web_data_extraction_engi.Store.Tx.{
  Tx, ◌>>=◌, ◌>>◌, pure, raise, gets, some_or, guarded, on_conflict, attribute_error,
  idempotency_conflict, integrity_error, invalid_url,
}
use web_data_extraction_engi.Store.Events.{append_event}
use web_data_extraction_engi.Store.Tables.{add_source, add_job, add_key, add_work}
use web_data_extraction_engi.Service.Lifecycle.{job_row, assert_project_access}

-- `JobCreateRequest` of schemas.py
pub record JobCreateRequest : Type 0 where
  pub project_id : ℕ
  pub source_url : String
  pub task : String
  pub fields : List String
  pub options : JobOptions
  pub output_formats : List String

-- `CanonicalUrl` of url_policy.py
pub record CanonicalUrl : Type 0 where
  pub canonical_url : String
  pub domain : String

pub record JobAccepted : Type 0 where
  pub job_id : ℕ
  pub project_id : ℕ
  pub status : JobStatus
  pub percent : ℕ
  pub updated_at : ℕ

abbrev pub accepted : Job → JobAccepted
accepted job = record {
  job_id = job.id;
  project_id = job.project_id;
  status = job.status;
  percent = job.progress_percent;
  updated_at = job.created_at;
}

-- the columns of a job's row at its insertion
unfoldable pub new_job : ℕ → ℕ → JobCreateRequest → ℕ → ℕ → Job
new_job id source_id request correlation_id now = record {
  id = id;
  project_id = request.project_id;
  source_id = source_id;
  status = queued;
  status_version = 0;
  task_description = request.task;
  requested_fields = request.fields;
  options = request.options;
  output_formats = request.output_formats;
  progress_percent = 0;
  pages_discovered = 0;
  pages_processed = 0;
  records_found = 0;
  last_error_code = none;
  last_error_message = none;
  retryable = false;
  attempt = 0;
  max_attempts = 3;
  cancel_requested_at = none;
  cancelled_by = none;
  correlation_id = correlation_id;
  lease_owner = none;
  lease_expires_at = none;
  created_at = now;
  started_at = none;
  completed_at = none;
  updated_at = now;
}

-- `IdempotencyKey.project_id == project_id, IdempotencyKey.key == key`
abbrev pub key_row : ℕ → String → Db → Option IdempotencyKey
key_row project_id key db = first (λ r. r.project_id == project_id && str_eq r.key key) db.keys

-- `if idempotency_key`: the empty text is no key
abbrev pub given_key : Option String → Option String
given_key none = none
given_key (some key) = if str_eq key "" then none else some key

abbrev pub source_by_url : ℕ → String → Db → Option Source
source_by_url project_id url db =
    first (λ s. s.project_id == project_id && str_eq s.canonical_url url) db.sources

-- `accepted(await session.get(ExtractionJob, job_id))`
unfoldable pub accepted_job : ℕ → Tx JobAccepted
accepted_job job_id = do
  found ← gets (job_row job_id)
  job ← some_or attribute_error found
  pure (accepted job)

-- the answer to a key that is already used
unfoldable pub replay : IdempotencyKey → String → Tx JobAccepted
replay existing fingerprint =
    if not (str_eq existing.request_hash fingerprint)
    then raise idempotency_conflict
    else accepted_job existing.job_id

-- the source's row, inserted if it is not there; the answer is its identifier
unfoldable pub ensure_source : ℕ → ℕ → CanonicalUrl → Tx ℕ
ensure_source project_id source_id canonical = do
  existing ← gets (source_by_url project_id canonical.canonical_url)
  maybe existing
      (do
        add_source (record {
          id = source_id;
          project_id = project_id;
          canonical_url = canonical.canonical_url;
          domain = canonical.domain;
        })
        pure source_id)
      (λ source. pure source.id)

-- the rows of the last flush: the work of the planner and, with a key, its row
unfoldable pub add_planning_work : Job → Option String → String → ℕ → Tx (Unit {0})
add_planning_work job key fingerprint now = do
  add_work run_planning
      (record {
        job_id = job.id;
        project_id = job.project_id;
        correlation_id = job.correlation_id;
        operation_key = phase_key job.id "planning" 1;
        attempt = 1;
        page_id = none;
        validation_run_id = none;
        export_job_id = none;
      })
      1 now now
  maybe key (pure tt) λ k.
      add_key (record {
        project_id = job.project_id;
        key = k;
        request_hash = fingerprint;
        job_id = job.id;
      })

-- the insertions of a new job and of what belongs to it
unfoldable pub insert_row : Job → Option String → String → ℕ → Tx JobAccepted
insert_row job key fingerprint now = do
  add_job job
  append_event job.id "job_queued" queued (some 0) job.correlation_id
  guarded (add_planning_work job key fingerprint now)
  pure (accepted job)

unfoldable pub insert_job :
    JobCreateRequest → Option String → String → ℕ → ℕ → CanonicalUrl → ℕ → ℕ → Tx JobAccepted
insert_job request key fingerprint job_id new_source_id canonical correlation_id now = do
  source_id ← ensure_source request.project_id new_source_id canonical
  insert_row (new_job job_id source_id request correlation_id now) key fingerprint now

-- after the rollback: the row of a concurrent request with that key
unfoldable pub after_conflict : ℕ → Option String → String → Tx JobAccepted
after_conflict project_id key fingerprint = maybe key (raise integrity_error) λ k. do
  found ← gets (key_row project_id k)
  maybe found (raise integrity_error) λ existing.
      if str_eq existing.request_hash fingerprint
      then accepted_job existing.job_id
      else raise integrity_error

-- `validate_initial_url` and `request_fingerprint` are arguments; `job_id` and `new_source_id` are
-- the UUIDs that are drawn for the rows
module _ (validate_initial_url : String → Option CanonicalUrl)
    (request_fingerprint : JobCreateRequest → String) where
  -- the part after the search for the key
  unfoldable pub submit : JobCreateRequest → Option String → ℕ → ℕ → ℕ → ℕ → Tx JobAccepted
  submit request key job_id new_source_id correlation_id now = do
    canonical ← some_or invalid_url (validate_initial_url request.source_url)
    on_conflict
        (insert_job request key (request_fingerprint request) job_id new_source_id canonical
          correlation_id now)
        (after_conflict request.project_id key (request_fingerprint request))

  unfoldable pub create_job : JobCreateRequest → ℕ → Option String → ℕ → ℕ → ℕ → ℕ → Tx JobAccepted
  create_job request principal_id idempotency_key job_id new_source_id correlation_id now = do
    project ← assert_project_access request.project_id principal_id
    let key = given_key idempotency_key
    found ← gets (λ db. maybe key none (λ k. key_row request.project_id k db))
    maybe found (submit request key job_id new_source_id correlation_id now)
        λ existing. replay existing (request_fingerprint request)
