-- ===== src/Service/Discovery.antt =====
-- `claim_discovery`, `complete_discovery_page` and `fail_discovery`.
use web_data_extraction_engi.Prelude.{
  ℕ, ◌+◌, min, true, false, not, ◌&&◌, List, [], ◌∷◌, ◌++◌, Option, none, some, String, length,
  first, is_some, maybe, if◌then◌else◌, ◌==◌, leb, str_eq, str_in,
}
use web_data_extraction_engi.Domain.{
  discovering, extracting, cancelled, failed, status_eq, status_in,
}
use web_data_extraction_engi.Store.{
  Job, Page, PageStatus, DiscoveryMethod, CanonicalPlan, Command, OperationKey, phase_key,
  discovery_page_key, run_discovery, run_extraction,
}
use web_data_extraction_engi.Store.Tx.{
  Tx, ◌>>=◌, ◌>>◌, pure, raise, gets, some_or, invalid_transition,
}
use web_data_extraction_engi.Store.Jobs.{modify_job}
use web_data_extraction_engi.Store.Events.{append_event}
use web_data_extraction_engi.Store.Tables.{add_work, modify_page}
use web_data_extraction_engi.Discovery.{
  Settings, UrlRules, DiscoveryCandidate, CandidateDecision, from_signals, sitemap_candidates,
}
use web_data_extraction_engi.Service.Columns.{
  Failure, take_lease, release_lease, set_failure, count_attempt, raise_progress, count_visited,
}
use web_data_extraction_engi.Service.Lifecycle.{job_row, source_row, transition}
use web_data_extraction_engi.Service.Browser.{BrowserOperationResult}
use web_data_extraction_engi.Service.Inventory.{
  Inventory, next_discovered, latest_plan, seen_urls, is_method, persist_candidates,
}

pub record DiscoveryOperation : Type 0 where
  pub job_id : ℕ
  pub project_id : ℕ
  pub correlation_id : ℕ
  pub operation_key : OperationKey
  pub page_id : ℕ
  pub page_url : String
  pub page_depth : ℕ
  pub page_method : Option DiscoveryMethod
  pub source_domain : String
  pub plan : CanonicalPlan

unfoldable pub set_page_status : PageStatus → Page → Page
set_page_status status p = record p { status = status }

-- the end of `claim_discovery`, for the page that it chose
grant_discovery : Job → Page → Command → String → ℕ → ℕ → Tx (Option DiscoveryOperation)
grant_discovery job page command worker_id lease_ms now = do
  plan ← gets (latest_plan command.job_id)
  source ← gets (source_row job.source_id)
  plan_row ← some_or invalid_transition plan
  source_row ← some_or invalid_transition source
  modify_page page.id (set_page_status PageStatus.queued)
  modify_job command.job_id (take_lease worker_id (now + lease_ms))
  append_event command.job_id "page_queued" discovering none command.correlation_id
  pure (
      some (record {
        job_id = command.job_id;
        project_id = job.project_id;
        correlation_id = command.correlation_id;
        operation_key = command.operation_key;
        page_id = page.id;
        page_url = page.canonical_url;
        page_depth = page.depth;
        page_method = page.discovered_via;
        source_domain = source_row.domain;
        plan = plan_row.plan;
      }))

unfoldable pub claim_discovery : Command → String → ℕ → ℕ → Tx (Option DiscoveryOperation)
unfolding grant_discovery
claim_discovery command worker_id lease_ms now = do
  found ← gets (job_row command.job_id)
  maybe found (pure none) λ job.
      if status_in job.status (cancelled ∷ failed ∷ [])
      then pure none
      else if not (status_eq job.status discovering)
      then raise invalid_transition
      else if is_some job.cancel_requested_at
      then (do
        transition command.job_id discovering cancelled command.correlation_id now
        pure none)
      else do
        chosen ← gets (next_discovered command.job_id command.page_id)
        maybe chosen (pure none) λ page. grant_discovery job page command worker_id lease_ms now

-- the columns of a visited page
unfoldable pub visit_page : BrowserOperationResult → ℕ → Page → Page
visit_page result now p = record p {
  status = PageStatus.visited;
  navigation = some result.navigation;
  visited_at = some now;
  signal_count = some (length result.navigation_signals);
}

-- `_queue_discovery_page`
unfoldable pub queue_discovery_page : ℕ → ℕ → ℕ → ℕ → ℕ → Tx (Unit {0})
queue_discovery_page job_id project_id page_id correlation_id now =
    add_work run_discovery
      (record {
        job_id = job_id;
        project_id = project_id;
        correlation_id = correlation_id;
        operation_key = discovery_page_key job_id page_id;
        attempt = 1;
        page_id = some page_id;
        validation_run_id = none;
        export_job_id = none;
      })
      1 now now

-- the end of `complete_discovery_page`: another page, or the extraction
unfoldable pub continue_discovery : Job → DiscoveryOperation → Option Page → ℕ → Tx (Unit {0})
continue_discovery job op (some page) now =
    queue_discovery_page op.job_id job.project_id page.id op.correlation_id now
continue_discovery job op none now = do
  modify_job op.job_id (raise_progress 40)
  append_event op.job_id "discovery_completed" discovering none op.correlation_id
  transition op.job_id discovering extracting op.correlation_id now
  add_work run_extraction
      (record {
        job_id = op.job_id;
        project_id = job.project_id;
        correlation_id = op.correlation_id;
        operation_key = phase_key op.job_id "extraction" 1;
        attempt = 1;
        page_id = none;
        validation_run_id = none;
        export_job_id = none;
      })
      1 now now

module _ (rules : UrlRules) (settings : Settings) where
  -- the candidates of the page's links and, for a sitemap, of its text
  unfoldable pub decide_candidates :
      CanonicalPlan → Page → BrowserOperationResult → List String → CandidateDecision
  decide_candidates plan page result seen =
      let links =
        from_signals rules settings plan result.navigation.final_url page.canonical_url page.depth
          result.navigation_signals seen in
      let text = maybe result.document_text "" (λ t. t) in
      let locations =
        sitemap_candidates rules settings plan text page.canonical_url page.depth seen in
      if is_method DiscoveryMethod.sitemap page.discovered_via && not (str_eq text "")
      then record {
        candidates = links.candidates ++ locations.candidates;
        rejected = links.rejected ++ locations.rejected;
        duplicate_count = links.duplicate_count + locations.duplicate_count;
      }
      else links

  -- `_should_enqueue_sitemap`, with the URL that it found
  abbrev pub sitemap_probe : CanonicalPlan → Page → List String → Option String
  sitemap_probe plan page seen = maybe (rules.default_sitemap_url plan.source_url) none λ url.
      if settings.discovery_enable_sitemaps && page.depth == 0 && not (str_in url seen)
      then some url
      else none

  abbrev probe_candidate : Page → String → DiscoveryCandidate
  probe_candidate page url = record {
    url = url;
    canonical_url = url;
    discovered_via = DiscoveryMethod.sitemap;
    depth = 1;
    parent_canonical_url = page.canonical_url;
    policy_decision = "ALLOWED";
    relevance_reason = some "configured sitemap probe";
  }

  -- the part between the visit and the choice of the next page
  unfoldable pub extend_inventory :
      DiscoveryOperation → Page → BrowserOperationResult → (ℕ → ℕ) → ℕ → Tx (Unit {0})
  extend_inventory op page result ids now = do
    let inv : Inventory = record {
      job_id = op.job_id;
      correlation_id = op.correlation_id;
      parent_id = page.id;
      limit = min settings.discovery_max_pages op.plan.limits.max_pages;
      ids = ids;
      now = now;
    }
    seen ← gets (seen_urls op.job_id)
    let decision = decide_candidates op.plan page result seen
    persist_candidates inv false decision.candidates
    persist_candidates inv true decision.rejected
    if decision.duplicate_count == 0
        then pure tt
        else append_event op.job_id "page_duplicate" discovering none op.correlation_id
    maybe (sitemap_probe op.plan page seen) (pure tt)
        λ url. persist_candidates inv false (probe_candidate page url ∷ [])

  -- the part of `complete_discovery_page` after its guards
  record_visit :
      Job → DiscoveryOperation → Page → BrowserOperationResult → (ℕ → ℕ) → ℕ → Tx (Unit {0})
  record_visit job op page result ids now = do
    modify_page op.page_id (visit_page result now)
    modify_job op.job_id count_visited
    append_event op.job_id "page_visited" discovering none op.correlation_id
    extend_inventory op page result ids now
    modify_job op.job_id release_lease
    next_page ← gets (next_discovered op.job_id none)
    continue_discovery job op next_page now

  unfoldable pub complete_discovery_page :
      DiscoveryOperation → BrowserOperationResult → (ℕ → ℕ) → ℕ → Tx (Unit {0})
  unfolding record_visit
  complete_discovery_page op result ids now = do
    found ← gets (job_row op.job_id)
    maybe found (pure tt) λ job.
        if status_in job.status (cancelled ∷ failed ∷ [])
        then pure tt
        else if not (status_eq job.status discovering)
        then raise invalid_transition
        else if is_some job.cancel_requested_at
        then transition op.job_id discovering cancelled op.correlation_id now
        else do
          page ← gets (λ db. first (λ p. p.id == op.page_id) db.pages)
          row ← some_or invalid_transition page
          record_visit job op row result ids now

-- `page.status = status` for the page of the command, if it names one
unfoldable pub mark_page : Option ℕ → PageStatus → Tx (Unit {0})
mark_page page_id status = maybe page_id (pure tt) (λ id. modify_page id (set_page_status status))

fail_for_good : Command → ℕ → Tx (Option ℕ)
fail_for_good command now = do
  append_event command.job_id "discovery_failed" discovering none command.correlation_id
  transition command.job_id discovering failed command.correlation_id now
  pure none

retry_discovery : Job → Command → ℕ → ℕ → Tx (Option ℕ)
unfolding fail_for_good
retry_discovery job command max_attempts now = do
  modify_job command.job_id count_attempt
  if leb (job.attempt + 1) max_attempts
      then (do
        mark_page command.page_id PageStatus.discovered
        append_event command.job_id "discovery_retry_scheduled" discovering none
            command.correlation_id
        pure (some (job.attempt + 1)))
      else fail_for_good command now

unfoldable pub fail_discovery : Command → Failure → ℕ → ℕ → Tx (Option ℕ)
unfolding retry_discovery
fail_discovery command error max_attempts now = do
  found ← gets (job_row command.job_id)
  maybe found (pure none) λ job.
      if not (status_eq job.status discovering)
      then pure none
      else if is_some job.cancel_requested_at
      then (do
        mark_page command.page_id PageStatus.skipped
        transition command.job_id discovering cancelled command.correlation_id now
        pure none)
      else do
        mark_page command.page_id PageStatus.failed
        modify_job command.job_id (set_failure error)
        if error.retryable
            then retry_discovery job command max_attempts now
            else fail_for_good command now
