-- ===== src/Service/Lifecycle.antt =====
-- Status changes, cancellation and access to a job.
use web_data_extraction_engi.Prelude.{
  ℕ, Bool, not, Option, none, some, first, is_some, maybe, if◌then◌else◌, ◌&&◌, ◌||◌, ◌==◌,
}
use web_data_extraction_engi.Domain.{
  JobStatus, completed, failed, cancelled, status_eq, status_in, terminal_states, is_allowed,
  event_for_transition,
}
use web_data_extraction_engi.Store.{Db, Job, Project, Source}
use web_data_extraction_engi.Store.Tx.{
  Tx, ◌>>=◌, ◌>>◌, pure, raise, gets, some_or, not_authorized, not_found, invalid_transition,
}
use web_data_extraction_engi.Store.Jobs.{find_job, modify_job}
use web_data_extraction_engi.Store.Events.{append_event}
use web_data_extraction_engi.Service.Columns.{enter, request_cancel}

-- `select(ExtractionJob).where(ExtractionJob.id == job_id).with_for_update()`
abbrev pub job_row : ℕ → Db → Option Job
job_row id db = find_job id db.jobs

-- the write of `transition`, once its checks have passed for `job`
unfoldable pub enter_state : Job → ℕ → JobStatus → JobStatus → ℕ → ℕ → Tx (Unit {0})
enter_state job job_id expected target correlation_id now = do
  modify_job job_id (enter target now)
  append_event job_id (event_for_transition expected target) target
      (some (enter target now job).progress_percent) correlation_id

unfoldable pub transition : ℕ → JobStatus → JobStatus → ℕ → ℕ → Tx (Unit {0})
unfolding enter_state
transition job_id expected target correlation_id now =
    if not (is_allowed expected target) then raise invalid_transition else do
      found ← gets (job_row job_id)
      maybe found (raise invalid_transition) λ job.
          if not (status_eq job.status expected) || status_in job.status terminal_states
          then raise invalid_transition
          else enter_state job job_id expected target correlation_id now

-- `Project.id == project_id, Project.owner_id == principal_id`
abbrev pub owns : ℕ → ℕ → Project → Bool
owns project_id principal_id p = p.id == project_id && p.owner_id == principal_id

unfoldable pub assert_project_access : ℕ → ℕ → Tx Project
assert_project_access project_id principal_id = do
  project ← gets (λ db. first (owns project_id principal_id) db.projects)
  some_or not_authorized project

-- the job of that identifier, if the principal owns its project
abbrev pub owned_job : ℕ → ℕ → Db → Option Job
owned_job job_id principal_id db =
    maybe (find_job job_id db.jobs) none λ job.
      if is_some (first (owns job.project_id principal_id) db.projects) then some job else none

unfoldable pub get_job : ℕ → ℕ → Tx Job
get_job job_id principal_id = do job ← gets (owned_job job_id principal_id); some_or not_found job

abbrev pub source_row : ℕ → Db → Option Source
source_row id db = first (λ s. s.id == id) db.sources

pub record CancelResponse : Type 0 where
  pub job_id : ℕ
  pub status : JobStatus
  pub cancelled_at : Option ℕ

-- the request is written and acknowledged in one transaction
unfoldable pub request_and_cancel : ℕ → JobStatus → ℕ → ℕ → ℕ → Tx (Unit {0})
request_and_cancel job_id status principal_id correlation_id now = do
  modify_job job_id (request_cancel now principal_id)
  transition job_id status cancelled correlation_id now

unfoldable pub cancel : ℕ → ℕ → ℕ → ℕ → Tx CancelResponse
cancel job_id principal_id correlation_id now = do
  job ← get_job job_id principal_id
  if status_eq job.status completed
      then raise invalid_transition
      else if status_eq job.status cancelled
      then pure (record { job_id = job_id; status = cancelled; cancelled_at = job.completed_at })
      else if status_eq job.status failed
      then raise invalid_transition
      else do
        request_and_cancel job_id job.status principal_id correlation_id now
        pure (record { job_id = job_id; status = cancelled; cancelled_at = some now })
