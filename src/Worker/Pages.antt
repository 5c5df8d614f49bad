-- ===== src/Worker/Pages.antt =====
-- worker.py: `run_browser_capture`, `run_discovery` and `run_extraction`.
use web_data_extraction_engi.Prelude.{
  ℕ, Bool, true, false, not, Option, some, String, maybe, if◌then◌else◌,
}
use web_data_extraction_engi.Domain.{retry_delay}
use web_data_extraction_engi.Store.{Db, Command, DiscoveryMethod}
use web_data_extraction_engi.Discovery.{Settings, UrlRules}
use web_data_extraction_engi.Service.Browser.{
  BrowserOperationRequest, BrowserOperationResult, prepare_browser_capture,
  complete_browser_capture, fail_browser_capture,
}
use web_data_extraction_engi.Service.Discovery.{
  DiscoveryOperation, claim_discovery, complete_discovery_page, fail_discovery,
}
use web_data_extraction_engi.Service.Extraction.{
  ExtractionOperation, ExtractionResult, claim_extraction, complete_extraction_page,
  fail_extraction,
}
use web_data_extraction_engi.Worker.{
  WorkerConfig, Answer, done, retry_after, uncaught, session, retry_or_done,
}
use web_data_extraction_engi.Worker.Errors.{
  BrowserError, browser_failure, is_engine_error, is_browser_cancelled, discovery_error,
  extraction_error, no_document,
}

-- what `browser_engine.capture` does: a result, or an exception with its message
pub data Capture (A : Type 0) : Type 0 where
  captured : A → Capture A
  failed : BrowserError → String → Capture A

-- the part of a capture that `run_extraction` reads
pub record DocumentCapture (Document : Type 0) : Type 0 where
  pub final_url : String
  pub document : Option Document

-- what a handler asks of the browser engine
pub record CaptureRequest : Type 0 where
  pub job_id : ℕ
  pub project_id : ℕ
  pub url : String
  pub allowed_domain : String
  pub capture_screenshot : Bool
  pub include_navigation_signals : Bool
  pub navigation_signal_limit : ℕ
  pub include_document_text : Bool
  pub document_text_limit : ℕ
  pub include_extraction_document : Bool
  pub extraction_text_limit : ℕ
  pub extraction_item_limit : ℕ

-- the request that `prepare_browser_capture` makes, with the defaults of its other fields
unfoldable pub source_request : BrowserOperationRequest → CaptureRequest
source_request r = record {
  job_id = r.job_id;
  project_id = r.project_id;
  url = r.url;
  allowed_domain = r.allowed_domain;
  capture_screenshot = true;
  include_navigation_signals = false;
  navigation_signal_limit = 0;
  include_document_text = false;
  document_text_limit = 0;
  include_extraction_document = false;
  extraction_text_limit = 0;
  extraction_item_limit = 0;
}

-- `operation.page_method == DiscoveryMethod.SITEMAP.value`
abbrev pub is_sitemap : Option DiscoveryMethod → Bool
is_sitemap (some DiscoveryMethod.sitemap) = true
is_sitemap _ = false

unfoldable pub discovery_request : Settings → DiscoveryOperation → CaptureRequest
discovery_request settings op = record {
  job_id = op.job_id;
  project_id = op.project_id;
  url = op.page_url;
  allowed_domain = op.source_domain;
  capture_screenshot = false;
  include_navigation_signals = not (is_sitemap op.page_method);
  navigation_signal_limit = settings.discovery_max_links_per_page;
  include_document_text = is_sitemap op.page_method;
  document_text_limit = settings.discovery_sitemap_max_bytes;
  include_extraction_document = false;
  extraction_text_limit = 0;
  extraction_item_limit = 0;
}

unfoldable pub extraction_request : WorkerConfig → ExtractionOperation → CaptureRequest
extraction_request w op = record {
  job_id = op.job_id;
  project_id = op.project_id;
  url = op.page_url;
  allowed_domain = op.source_domain;
  capture_screenshot = false;
  include_navigation_signals = false;
  navigation_signal_limit = 0;
  include_document_text = false;
  document_text_limit = 0;
  include_extraction_document = true;
  extraction_text_limit = w.extraction_max_document_chars;
  extraction_item_limit = w.extraction_max_document_items;
}

module _ (w : WorkerConfig) (command : Command) where
  unfoldable pub conclude_capture : Capture BrowserOperationResult → ℕ → ℕ → Db → Answer × Db
  conclude_capture (captured result) page_id finish db =
      session (complete_browser_capture command result page_id finish) db λ u t. (done, t)
  conclude_capture (failed e message) page_id finish db =
      if is_engine_error e
      then session
          (fail_browser_capture command (browser_failure e message) (is_browser_cancelled e) finish)
          db
          (λ should_retry t.
            (if should_retry then retry_after (retry_delay w.uniform command.attempt) else done, t))
      else (uncaught (browser_failure e message), db)

  unfoldable pub run_browser_capture :
      (CaptureRequest → Capture BrowserOperationResult) → (Db → Db) → ℕ → ℕ → ℕ → Db → Answer × Db
  unfolding conclude_capture
  run_browser_capture capture meanwhile page_id start finish db =
      session (prepare_browser_capture command w.worker_id start) db λ prepared t.
        maybe prepared (done, t)
          λ request.
            conclude_capture (capture (source_request request)) page_id finish (meanwhile t)

  module _ (rules : UrlRules) (settings : Settings) where
    unfoldable pub conclude_discovery :
        DiscoveryOperation → Capture BrowserOperationResult → (ℕ → ℕ) → ℕ → Db → Answer × Db
    conclude_discovery op (captured result) ids finish db =
        session (complete_discovery_page rules settings op result ids finish) db λ u t. (done, t)
    conclude_discovery op (failed e message) ids finish db =
        if is_engine_error e
        then session (fail_discovery command (discovery_error e) w.planner_max_retries finish) db
            (λ retry t. (retry_or_done w retry, t))
        else (uncaught (browser_failure e message), db)

    unfoldable pub run_discovery :
        (CaptureRequest → Capture BrowserOperationResult)
        → (Db → Db)
        → (ℕ → ℕ)
        → ℕ
        → ℕ
        → Db
        → Answer × Db
    unfolding conclude_discovery
    run_discovery capture meanwhile ids start finish db =
        session (claim_discovery command w.worker_id w.worker_lease_ms start) db λ claimed t.
          maybe claimed (done, t)
            λ op.
              conclude_discovery op (capture (discovery_request settings op)) ids finish
                (meanwhile t)

  -- `extract` is `ExtractionService.extract`; a missing document is reported, and the answer of
  -- `fail_extraction` is not read
  module _ {Document : Type 0}
      (extract : ExtractionOperation → String → Document → ExtractionResult) where
    unfoldable pub conclude_extraction :
        ExtractionOperation
        → Capture (DocumentCapture Document)
        → (ℕ → ℕ)
        → ℕ
        → ℕ
        → Db
        → Answer × Db
    conclude_extraction op (captured result) ids run_id finish db =
        maybe result.document
          (session (fail_extraction command no_document w.extraction_max_retries finish) db
            (λ retry t. (done, t)))
          λ document.
            session
              (complete_extraction_page op (extract op result.final_url document)
                w.extraction_max_records ids run_id finish)
              db λ u t. (done, t)
    conclude_extraction op (failed e message) ids run_id finish db =
        if is_engine_error e
        then session (fail_extraction command (extraction_error e) w.extraction_max_retries finish)
            db (λ retry t. (retry_or_done w retry, t))
        else (uncaught (browser_failure e message), db)

    unfoldable pub run_extraction :
        (CaptureRequest → Capture (DocumentCapture Document))
        → (Db → Db)
        → (ℕ → ℕ)
        → ℕ
        → ℕ
        → ℕ
        → Db
        → Answer × Db
    unfolding conclude_extraction
    run_extraction capture meanwhile ids run_id start finish db =
        session (claim_extraction command w.worker_id w.worker_lease_ms start) db λ claimed t.
          maybe claimed (done, t)
            λ op.
              conclude_extraction op (capture (extraction_request w op)) ids run_id finish
                (meanwhile t)
