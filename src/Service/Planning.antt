-- ===== src/Service/Planning.antt =====
-- `claim_planning`, `complete_planning` and `fail_planning`.
use web_data_extraction_engi.Prelude.{
  ℕ, ◌+◌, Bool, true, false, not, ◌&&◌, List, [], ◌∷◌, Option, none, some, String, any, is_some,
  maybe, if◌then◌else◌, ◌==◌, ltb, leb,
}
use web_data_extraction_engi.Domain.{
  JobStatus, queued, planning, browser_initializing, cancelled, failed, status_eq, status_in,
}
use web_data_extraction_engi.Store.{
  Job, JobOptions, CanonicalPlan, ExtractionPlan, Command, phase_key, run_browser_capture,
}
use web_data_extraction_engi.Store.Tx.{
  Tx, ◌>>=◌, ◌>>◌, pure, raise, gets, some_or, invalid_transition,
}
use web_data_extraction_engi.Store.Jobs.{modify_job}
use web_data_extraction_engi.Store.Events.{append_event}
use web_data_extraction_engi.Store.Tables.{add_plan, add_work}
use web_data_extraction_engi.Service.Columns.{
  Failure, start_attempt, release_lease, set_failure, count_attempt, raise_progress,
}
use web_data_extraction_engi.Service.Lifecycle.{job_row, source_row, transition}

pub record PlanningOperation : Type 0 where
  pub job_id : ℕ
  pub project_id : ℕ
  pub source_url : String
  pub task : String
  pub requested_fields : List String
  pub options : JobOptions
  pub output_formats : List String

-- `job.lease_expires_at and job.lease_expires_at > utcnow()`
abbrev pub lease_is_live : Job → ℕ → Bool
lease_is_live job now = maybe job.lease_expires_at false (λ until. ltb now until)

-- a queued job enters planning; a planning one is taken over
begin_planning : JobStatus → Command → ℕ → Tx (Unit {0})
begin_planning status command now =
    if status_eq status queued
    then (do
      modify_job command.job_id (raise_progress 10)
      transition command.job_id queued planning command.correlation_id now)
    else pure tt

-- the end of `claim_planning`, for a job that may be planned
grant_planning : Job → Command → String → ℕ → ℕ → Tx (Option PlanningOperation)
unfolding begin_planning
grant_planning job command worker_id lease_ms now = do
  begin_planning job.status command now
  modify_job command.job_id (start_attempt worker_id (now + lease_ms))
  source ← gets (source_row job.source_id)
  row ← some_or invalid_transition source
  pure (
      some (record {
        job_id = command.job_id;
        project_id = job.project_id;
        source_url = row.canonical_url;
        task = job.task_description;
        requested_fields = job.requested_fields;
        options = job.options;
        output_formats = job.output_formats;
      }))

unfoldable pub claim_planning : Command → String → ℕ → ℕ → Tx (Option PlanningOperation)
unfolding grant_planning
claim_planning command worker_id lease_ms now = do
  found ← gets (job_row command.job_id)
  maybe found (pure none) λ job.
      if status_in job.status (browser_initializing ∷ cancelled ∷ failed ∷ [])
      then pure none
      else if not (status_in job.status (queued ∷ planning ∷ []))
      then raise invalid_transition
      else if is_some job.cancel_requested_at
      then (do transition command.job_id job.status cancelled command.correlation_id now; pure none)
      else if status_eq job.status planning && lease_is_live job now
      then pure none
      else grant_planning job command worker_id lease_ms now

-- the end of `complete_planning`: the plan is stored and the browser work handed off
store_plan : Job → Command → CanonicalPlan → String → String → String → ℕ → Tx Bool
store_plan job command plan plan_hash provider_name model_name now = do
  add_plan (record {
    job_id = command.job_id;
    version = plan.plan_version;
    plan = plan;
    model_name = model_name;
    provider_name = provider_name;
    plan_hash = plan_hash;
  })
  modify_job command.job_id (raise_progress 20)
  transition command.job_id planning browser_initializing command.correlation_id now
  add_work run_browser_capture
      (record {
        job_id = command.job_id;
        project_id = job.project_id;
        correlation_id = command.correlation_id;
        operation_key = phase_key command.job_id "browser" 1;
        attempt = 1;
        page_id = none;
        validation_run_id = none;
        export_job_id = none;
      })
      1 now now
  modify_job command.job_id release_lease
  pure true

abbrev pub plan_row : ℕ → ℕ → ExtractionPlan → Bool
plan_row job_id version p = p.job_id == job_id && p.version == version

-- `plan_hash` is the SHA-256 of the plan's canonical JSON
unfoldable pub complete_planning : Command → CanonicalPlan → String → String → String → ℕ → Tx Bool
unfolding store_plan
complete_planning command plan plan_hash provider_name model_name now = do
  found ← gets (job_row command.job_id)
  maybe found (pure false) λ job.
      if status_in job.status (browser_initializing ∷ cancelled ∷ [])
      then pure false
      else if not (status_eq job.status planning)
      then raise invalid_transition
      else if is_some job.cancel_requested_at
      then (do transition command.job_id planning cancelled command.correlation_id now; pure false)
      else do
        existing ← gets (λ db. any (plan_row command.job_id plan.plan_version) db.plans)
        if existing
            then raise invalid_transition
            else store_plan job command plan plan_hash provider_name model_name now

-- the branch of `fail_planning` that gives up
give_up_planning : Command → ℕ → Tx (Option ℕ)
give_up_planning command now = do
  transition command.job_id planning failed command.correlation_id now
  pure none

-- `job.attempt += 1`, and a retry while the budget lasts
retry_planning : Job → Command → ℕ → ℕ → Tx (Option ℕ)
unfolding give_up_planning
retry_planning job command max_retries now = do
  modify_job command.job_id count_attempt
  if leb (job.attempt + 1) max_retries
      then (do
        append_event command.job_id "planning_retry_scheduled" planning none command.correlation_id
        pure (some (job.attempt + 1)))
      else give_up_planning command now

unfoldable pub fail_planning : Command → Failure → ℕ → ℕ → Tx (Option ℕ)
unfolding retry_planning
fail_planning command error max_retries now = do
  found ← gets (job_row command.job_id)
  maybe found (pure none) λ job.
      if not (status_eq job.status planning)
      then pure none
      else if is_some job.cancel_requested_at
      then (do transition command.job_id planning cancelled command.correlation_id now; pure none)
      else do
        modify_job command.job_id (set_failure error)
        if error.retryable
            then retry_planning job command max_retries now
            else give_up_planning command now
