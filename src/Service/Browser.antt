-- ===== src/Service/Browser.antt =====
-- `prepare_browser_capture`, `complete_browser_capture` and `fail_browser_capture`.
use web_data_extraction_engi.Prelude.{
  ℕ, ◌+◌, Bool, true, false, not, ◌&&◌, ◌||◌, List, [], ◌∷◌, Option, none, some, String, first,
  is_some, maybe, if◌then◌else◌, ◌==◌, ltb, str_eq,
}
use web_data_extraction_engi.Domain.{
  JobStatus, browser_initializing, discovering, cancelled, failed, status_eq, status_in,
}
use web_data_extraction_engi.Store.{
  Db, Job, Page, PageStatus, DiscoveryMethod, Navigation, Command, discovery_source_key,
  run_discovery,
}
use web_data_extraction_engi.Store.Tx.{
  Tx, ◌>>=◌, ◌>>◌, pure, raise, gets, some_or, invalid_transition,
}
use web_data_extraction_engi.Store.Jobs.{modify_job}
use web_data_extraction_engi.Store.Events.{append_event}
use web_data_extraction_engi.Store.Tables.{add_page, add_artifact, add_work, modify_page}
use web_data_extraction_engi.Service.Columns.{
  Failure, take_lease, release_lease, set_failure, raise_progress, count_source_page,
}
use web_data_extraction_engi.Service.Lifecycle.{job_row, source_row, transition}

pub record BrowserOperationRequest : Type 0 where
  pub job_id : ℕ
  pub project_id : ℕ
  pub url : String
  pub allowed_domain : String

-- one entry of `result.artifacts`, with its storage reference
pub record CapturedArtifact : Type 0 where
  pub kind : String
  pub key : String
  pub expires_at : Option ℕ

pub record NavigationSignal : Type 0 where
  pub href : String
  pub text : String
  pub rel : String
  pub aria_label : String

pub record BrowserOperationResult : Type 0 where
  pub navigation : Navigation
  -- the `type` of each event
  pub events : List String
  pub artifacts : List CapturedArtifact
  pub navigation_signals : List NavigationSignal
  pub document_text : Option String

unfoldable pub prepare_browser_capture : Command → String → ℕ → Tx (Option BrowserOperationRequest)
prepare_browser_capture command worker_id now = do
  found ← gets (job_row command.job_id)
  maybe found (pure none) λ job.
      if status_in job.status (cancelled ∷ failed ∷ [])
      then pure none
      else if not (status_eq job.status browser_initializing)
      then raise invalid_transition
      else if is_some job.cancel_requested_at
      then (do
        transition command.job_id browser_initializing cancelled command.correlation_id now
        pure none)
      else do
        source ← gets (source_row job.source_id)
        row ← some_or invalid_transition source
        modify_job command.job_id (take_lease worker_id (now + 120_000))
        append_event command.job_id "browser_initializing" browser_initializing none
            command.correlation_id
        pure (
            some (record {
              job_id = command.job_id;
              project_id = job.project_id;
              url = row.canonical_url;
              allowed_domain = row.domain;
            }))

-- `Page.job_id == job_id, Page.canonical_url == url`
abbrev pub page_by_url : ℕ → String → Db → Option Page
page_by_url job_id url db = first (λ p. p.job_id == job_id && str_eq p.canonical_url url) db.pages

-- the columns of a page row that an insertion leaves at their defaults
abbrev pub new_page : ℕ → ℕ → String → String → PageStatus → Page
new_page id job_id url canonical_url status = record {
  id = id;
  job_id = job_id;
  url = url;
  canonical_url = canonical_url;
  status = status;
  discovered_at = none;
  captured_at = none;
  navigation = none;
  discovered_via = none;
  depth = 0;
  parent_page_id = none;
  policy_decision = none;
  relevance_reason = none;
  signal_count = none;
  visited_at = none;
  extraction_status = none;
  extraction_report = none;
  extraction_started_at = none;
  extraction_completed_at = none;
}

-- the page of the source after its capture
unfoldable pub capture_page : Navigation → ℕ → Page → Page
capture_page navigation now p = record p {
  status = PageStatus.discovered;
  navigation = some navigation;
  captured_at = some now;
  discovered_at = maybe p.discovered_at (some now) some;
  discovered_via = some DiscoveryMethod.source;
  depth = 0;
  policy_decision = some "ALLOWED";
}

-- the row of the captured page, inserted if it is not there; `page_id` is the new row's identifier
unfoldable pub ensure_page : ℕ → ℕ → Navigation → Tx ℕ
ensure_page job_id page_id navigation = do
  existing ← gets (page_by_url job_id navigation.final_url)
  maybe existing
      (do
        add_page (
            new_page page_id job_id navigation.requested_url navigation.final_url
              PageStatus.captured)
        pure page_id)
      (λ page. pure page.id)

unfoldable pub add_artifacts : ℕ → ℕ → List CapturedArtifact → Tx (Unit {0})
add_artifacts job_id page_id [] = pure tt
add_artifacts job_id page_id (a ∷ rest) = do
  add_artifact (record {
    job_id = job_id;
    page_id = page_id;
    artifact_type = a.kind;
    storage_key = a.key;
    expires_at = a.expires_at;
  })
  add_artifacts job_id page_id rest

-- one event for each entry, at the given stage
unfoldable pub append_events : ℕ → JobStatus → ℕ → List String → Tx (Unit {0})
append_events job_id stage correlation_id [] = pure tt
append_events job_id stage correlation_id (e ∷ rest) = do
  append_event job_id e stage none correlation_id
  append_events job_id stage correlation_id rest

-- the end of `complete_browser_capture`, for a job that waits for its capture
hand_to_discovery : Job → Command → BrowserOperationResult → ℕ → ℕ → Tx (Unit {0})
hand_to_discovery job command result new_page_id now = do
  page_id ← ensure_page command.job_id new_page_id result.navigation
  modify_page page_id (capture_page result.navigation now)
  modify_job command.job_id count_source_page
  add_artifacts command.job_id page_id result.artifacts
  append_events command.job_id browser_initializing command.correlation_id result.events
  append_event command.job_id "browser_completed" browser_initializing none command.correlation_id
  modify_job command.job_id (raise_progress 30)
  transition command.job_id browser_initializing discovering command.correlation_id now
  add_work run_discovery
      (record {
        job_id = command.job_id;
        project_id = job.project_id;
        correlation_id = command.correlation_id;
        operation_key = discovery_source_key command.job_id;
        attempt = 1;
        page_id = some page_id;
        validation_run_id = none;
        export_job_id = none;
      })
      1 now now
  modify_job command.job_id release_lease

unfoldable pub complete_browser_capture : Command → BrowserOperationResult → ℕ → ℕ → Tx (Unit {0})
unfolding hand_to_discovery
complete_browser_capture command result new_page_id now = do
  found ← gets (job_row command.job_id)
  maybe found (pure tt) λ job.
      if status_in job.status (cancelled ∷ failed ∷ [])
      then pure tt
      else if not (status_eq job.status browser_initializing)
      then raise invalid_transition
      else if is_some job.cancel_requested_at
      then transition command.job_id browser_initializing cancelled command.correlation_id now
      else hand_to_discovery job command result new_page_id now

-- `browser_cancelled` says that the error is a `BrowserCancelled`
unfoldable pub fail_browser_capture : Command → Failure → Bool → ℕ → Tx Bool
fail_browser_capture command error browser_cancelled now = do
  found ← gets (job_row command.job_id)
  maybe found (pure false) λ job.
      if status_eq job.status cancelled
      then pure false
      else if browser_cancelled || is_some job.cancel_requested_at
      then (do
        if status_eq job.status browser_initializing
            then transition command.job_id browser_initializing cancelled command.correlation_id now
            else pure tt
        pure false)
      else do
        modify_job command.job_id (set_failure error)
        if error.retryable && ltb command.attempt job.max_attempts
            then (do
              append_event command.job_id "browser_retry_scheduled" browser_initializing none
                  command.correlation_id
              pure true)
            else do
              transition command.job_id browser_initializing failed command.correlation_id now
              pure false
