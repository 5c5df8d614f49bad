-- ===== src/Service/Recovery.antt =====
-- `recover_expired_leases`: work whose worker has vanished is queued again.
use web_data_extraction_engi.Prelude.{
  ℕ, ◌+◌, max, Bool, false, not, ◌&&◌, ◌||◌, List, [], ◌∷◌, Option, none, some, String, first,
  first_by, where_, map, is_some, maybe, if◌then◌else◌, ◌==◌, ltb,
}
use web_data_extraction_engi.Domain.{
  JobStatus, browser_initializing, discovering, exporting, failed, is_active, retry_delay,
}
use web_data_extraction_engi.Store.{
  Db, Job, Page, PageStatus, ExportJob, ExportStatus, CommandType, OperationKey, phase_key,
  export_key, run_planning, run_browser_capture, run_discovery, run_export,
}
use web_data_extraction_engi.Store.Tx.{Tx, ◌>>=◌, ◌>>◌, pure, gets}
use web_data_extraction_engi.Store.Jobs.{modify_job}
use web_data_extraction_engi.Store.Events.{append_event}
use web_data_extraction_engi.Store.Tables.{add_work, modify_page, modify_export}
use web_data_extraction_engi.Service.Columns.{expire_lease, abandon}
use web_data_extraction_engi.Service.Lifecycle.{job_row}
use web_data_extraction_engi.Service.Inventory.{page_is, page_order}
use web_data_extraction_engi.Service.Discovery.{set_page_status}
use web_data_extraction_engi.Service.Export.{export_is}

-- the phase that the conditional expression chooses
pub data Phase : Type 0 where
  browser discovery export planning : Phase

abbrev pub phase_of : JobStatus → Phase
phase_of browser_initializing = Phase.browser
phase_of discovering = Phase.discovery
phase_of exporting = Phase.export
phase_of _ = Phase.planning

abbrev pub phase_name : Phase → String
phase_name Phase.browser = "browser"
phase_name Phase.discovery = "discovery"
phase_name Phase.export = "export"
phase_name Phase.planning = "planning"

abbrev pub phase_command : Phase → CommandType
phase_command Phase.browser = run_browser_capture
phase_command Phase.discovery = run_discovery
phase_command Phase.export = run_export
phase_command Phase.planning = run_planning

-- `ExtractionJob.status.in_(ACTIVE_STATES), ExtractionJob.lease_expires_at < utcnow()`
abbrev pub is_expired : ℕ → Job → Bool
is_expired now j = is_active j.status && maybe j.lease_expires_at false (λ until. ltb until now)

-- the first page that is queued or discovered
abbrev pub lost_page : ℕ → Db → Option Page
lost_page job_id db = first_by (page_order (λ p. p.discovered_at)) (
    where_
      (λ p.
        p.job_id == job_id
        && (page_is p.status PageStatus.queued || page_is p.status PageStatus.discovered))
      db.pages)

-- `.order_by(ExportJob.created_at, ExportJob.id)`: the rows stand in the order of their creation
abbrev pub lost_export : ℕ → Db → Option ExportJob
lost_export job_id db =
    first (λ e. e.job_id == job_id && export_is e.status ExportStatus.running) db.exports

unfoldable pub revive_export : ℕ → ExportJob → ExportJob
revive_export attempt e = record e {
  status = ExportStatus.queued;
  attempt = max e.attempt attempt + 1;
}

module _ (uniform : ℕ → ℕ) (now : ℕ) where
  -- the new outbox row of `job`, whose attempt is `attempt`
  unfoldable pub requeue :
      Job → ℕ → CommandType → OperationKey → Option ℕ → Option ℕ → Option ℕ → Tx ℕ
  requeue job attempt command_type key page_id run_id export_id = do
    add_work command_type
        (record {
          job_id = job.id;
          project_id = job.project_id;
          correlation_id = job.correlation_id;
          operation_key = key;
          attempt = attempt;
          page_id = page_id;
          validation_run_id = run_id;
          export_job_id = export_id;
        })
        attempt (now + retry_delay uniform attempt) now
    pure 1

  -- the part of the loop's body that queues the phase again; 0 stands for `continue`
  unfoldable pub resume : Job → ℕ → Phase → Tx ℕ
  resume job attempt Phase.discovery = do
    found ← gets (lost_page job.id)
    maybe found (pure 0) λ page. do
      modify_page page.id (set_page_status PageStatus.discovered)
      requeue job attempt run_discovery (phase_key job.id "discovery" attempt) (some page.id) none
          none
  resume job attempt Phase.export = do
    found ← gets (lost_export job.id)
    maybe found (pure 0) λ export. do
      modify_export export.id (revive_export attempt)
      requeue job attempt run_export (export_key export.id (max export.attempt attempt + 1)) none
          (some export.validation_run_id) (some export.id)
  resume job attempt phase =
      requeue job attempt (phase_command phase) (phase_key job.id (phase_name phase) attempt) none
        none none

  -- the retry budget is used up
  unfoldable pub give_up : ℕ → Job → Tx ℕ
  give_up job_id job = do
    modify_job job_id (abandon now)
    append_event job_id "job_failed" failed none job.correlation_id
    pure 0

  unfoldable pub retry_job : ℕ → Job → Tx ℕ
  retry_job job_id job = do
    modify_job job_id expire_lease
    resume job (job.attempt + 1) (phase_of job.status)

  -- the body of the loop, with the query's condition on the row
  unfoldable pub recover_job : ℕ → Tx ℕ
  recover_job job_id = do
    found ← gets (job_row job_id)
    maybe found (pure 0) λ job.
        if not (is_expired now job) || is_some job.cancel_requested_at
        then pure 0
        else if ltb job.max_attempts (job.attempt + 1)
        then give_up job_id job
        else retry_job job_id job

  unfoldable pub recover_jobs : List ℕ → Tx ℕ
  recover_jobs [] = pure 0
  recover_jobs (id ∷ rest) = do n ← recover_job id; m ← recover_jobs rest; pure (n + m)

  unfoldable pub recover_expired_leases : Tx ℕ
  recover_expired_leases = do ids ← gets (λ db. map (λ j. j.id) db.jobs); recover_jobs ids
