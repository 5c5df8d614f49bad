-- ===== src/Service/Columns.antt =====
-- The assignments that the methods of `JobService` make to the columns of a job's row.
use web_data_extraction_engi.Prelude.{
  ℕ, ◌+◌, min, max, Bool, false, not, ◌&&◌, none, some, String, is_some, if◌then◌else◌,
}
use web_data_extraction_engi.Domain.{
  JobStatus, planning, failed, cancelled, status_eq, status_in, terminal_states,
}
use web_data_extraction_engi.Store.{Job}

-- an engine's exception, as far as the services read it
pub record Failure : Type 0 where
  pub code : String
  pub message : String
  pub retryable : Bool

-- the columns that `transition` writes
unfoldable pub enter : JobStatus → ℕ → Job → Job
enter target now j = record j {
  status = target;
  status_version = j.status_version + 1;
  updated_at = now;
  started_at =
      if status_eq target planning && not (is_some j.started_at) then some now else j.started_at;
  completed_at = if status_in target terminal_states then some now else j.completed_at;
  progress_percent =
      if status_eq target cancelled then min j.progress_percent 99 else j.progress_percent;
}

unfoldable pub take_lease : String → ℕ → Job → Job
take_lease worker_id until j = record j {
  lease_owner = some worker_id;
  lease_expires_at = some until;
}

unfoldable pub release_lease : Job → Job
release_lease j = record j { lease_owner = none; lease_expires_at = none }

-- `claim_planning` takes the lease and forgets the last error
unfoldable pub start_attempt : String → ℕ → Job → Job
start_attempt worker_id until j = record j {
  lease_owner = some worker_id;
  lease_expires_at = some until;
  last_error_code = none;
  last_error_message = none;
  retryable = false;
}

-- a failed operation keeps its error and gives its lease up
unfoldable pub set_failure : Failure → Job → Job
set_failure error j = record j {
  last_error_code = some error.code;
  last_error_message = some error.message;
  retryable = error.retryable;
  lease_owner = none;
  lease_expires_at = none;
}

unfoldable pub count_attempt : Job → Job
count_attempt j = record j { attempt = j.attempt + 1 }

-- `job.progress_percent = max(job.progress_percent, percent)`
unfoldable pub raise_progress : ℕ → Job → Job
raise_progress percent j = record j { progress_percent = max j.progress_percent percent }

unfoldable pub request_cancel : ℕ → ℕ → Job → Job
request_cancel now principal_id j = record j {
  cancel_requested_at = some now;
  cancelled_by = some principal_id;
}

-- `complete_browser_capture` counts the source page
unfoldable pub count_source_page : Job → Job
count_source_page j = record j {
  pages_discovered = max j.pages_discovered 1;
  pages_processed = max j.pages_processed 1;
}

unfoldable pub count_visited : Job → Job
count_visited j = record j { pages_processed = j.pages_processed + 1 }

unfoldable pub count_discovered : Job → Job
count_discovered j = record j { pages_discovered = j.pages_discovered + 1 }

unfoldable pub count_extracted : ℕ → Job → Job
count_extracted created j = record j {
  records_found = j.records_found + created;
  pages_processed = j.pages_processed + 1;
}

-- `complete_export` before the last change of status
unfoldable pub complete_progress : Job → Job
complete_progress j = record j { progress_percent = 100 }

-- `recover_expired_leases`: the lease is taken away and counted as an attempt
unfoldable pub expire_lease : Job → Job
expire_lease j = record j { lease_owner = none; lease_expires_at = none; attempt = j.attempt + 1 }

-- `recover_expired_leases` writes this state without `transition`
unfoldable pub abandon : ℕ → Job → Job
abandon now j = record j {
  lease_owner = none;
  lease_expires_at = none;
  attempt = j.attempt + 1;
  status = failed;
  last_error_code = some "INTERNAL_ERROR";
  last_error_message = some "Worker lease expired after the retry budget.";
  completed_at = some now;
}
