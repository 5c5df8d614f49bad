-- ===== src/Worker/Handlers/Browsing.antt =====
-- worker.py: which calls close the work of the browser, of discovery and of extraction.
use web_data_extraction_engi.Prelude.{
  ℕ, ◌≡◌, refl, ap, Bool-cases, inl, inr, List, String, if◌then◌else◌,
}
use web_data_extraction_engi.Store.{Db, Command}
use web_data_extraction_engi.System.{
  Externals, Call, run, perform, commit, on_prepare_browser_capture, on_complete_browser_capture,
  on_fail_browser_capture, on_claim_discovery, on_complete_discovery_page, on_fail_discovery,
  on_claim_extraction, on_complete_extraction_page, on_fail_extraction,
}
use web_data_extraction_engi.Worker.{WorkerConfig, done}
use web_data_extraction_engi.Worker.Pages.{
  CaptureRequest, Capture, captured, failed, DocumentCapture, source_request, discovery_request,
  extraction_request, conclude_capture, conclude_discovery, conclude_extraction,
}
use web_data_extraction_engi.Worker.Pages
use web_data_extraction_engi.Worker.Errors.{
  browser_failure, is_engine_error, is_browser_cancelled, discovery_error, extraction_error,
  no_document,
}
use web_data_extraction_engi.Domain.{retry_delay}
use web_data_extraction_engi.Worker.{retry_after, retry_or_done}
use web_data_extraction_engi.Prelude.{Option-cases}
use web_data_extraction_engi.Service.Browser.{BrowserOperationResult, prepare_browser_capture}
use web_data_extraction_engi.Service.Discovery.{DiscoveryOperation, claim_discovery}
use web_data_extraction_engi.Service.Extraction.{
  claim_extraction, ExtractionOperation, ExtractionResult, complete_extraction_page,
}
use web_data_extraction_engi.Prelude.{[], ◌∷◌, maybe}
use web_data_extraction_engi.Worker.Handlers.Calls.{
  unless_uncaught, session-run, protocol, claimed-run,
}

module _ (x : Externals) (w : WorkerConfig) (others : List (ℕ × Call)) (start finish : ℕ)
    (command : Command) where
  -- a capture is stored, an error of the browser engine is a failure of the capture
  abbrev pub close_capture : ℕ → Capture BrowserOperationResult → List (ℕ × Call)
  close_capture page_id (captured result) =
      (finish, on_complete_browser_capture command result page_id) ∷ []
  close_capture page_id (failed e message) =
      unless_uncaught (is_engine_error e) finish
        (on_fail_browser_capture command (browser_failure e message) (is_browser_cancelled e))

  close_capture-run :
      (page_id : ℕ) (answer : Capture BrowserOperationResult) (t : Db)
      → (conclude_capture w command answer page_id finish t).1
        ≡ run x (close_capture page_id answer) t
  unfolding conclude_capture perform run
  close_capture-run page_id (captured result) t =
      session-run x finish (on_complete_browser_capture command result page_id) _ (λ a. done) t refl
  close_capture-run page_id (failed e message) t = elim (Bool-cases (is_engine_error e)) [
    | inl b ↦ rw b (
        session-run x finish
          (on_fail_browser_capture command (browser_failure e message) (is_browser_cancelled e)) _
          (λ again. if again then retry_after (retry_delay w.uniform command.attempt) else done) t
          refl)
    | inr b ↦ rw b refl
  ]

  abbrev pub capture_calls :
      (CaptureRequest → Capture BrowserOperationResult) → ℕ → Db → List (ℕ × Call)
  capture_calls capture page_id =
      protocol x others start (on_prepare_browser_capture command w.worker_id)
        (prepare_browser_capture command w.worker_id start)
        (λ request t. close_capture page_id (capture (source_request request)))

  pub run_browser_capture-calls :
      (capture : CaptureRequest → Capture BrowserOperationResult) (page_id : ℕ) (s : Db)
      → (Pages.run_browser_capture w command capture (run x others) page_id start finish s).1
        ≡ run x (capture_calls capture page_id s) s
  unfolding Pages.run_browser_capture perform
  run_browser_capture-calls capture page_id s =
      claimed-run x others start _ _ _
        (λ request t.
          conclude_capture w command (capture (source_request request)) page_id finish t)
        s refl (λ request t. close_capture-run page_id (capture (source_request request)) t)

  -- a visited page is stored with its candidates, an error of the browser engine is a failure
  abbrev pub close_discovery :
      DiscoveryOperation → (ℕ → ℕ) → Capture BrowserOperationResult → List (ℕ × Call)
  close_discovery op ids (captured result) = (finish, on_complete_discovery_page op result ids) ∷ []
  close_discovery op ids (failed e message) =
      unless_uncaught (is_engine_error e) finish
        (on_fail_discovery command (discovery_error e) w.planner_max_retries)

  close_discovery-run :
      (op : DiscoveryOperation) (ids : ℕ → ℕ) (answer : Capture BrowserOperationResult) (t : Db)
      → (conclude_discovery w command x.rules x.settings op answer ids finish t).1
        ≡ run x (close_discovery op ids answer) t
  unfolding conclude_discovery perform run
  close_discovery-run op ids (captured result) t =
      session-run x finish (on_complete_discovery_page op result ids) _ (λ a. done) t refl
  close_discovery-run op ids (failed e message) t = elim (Bool-cases (is_engine_error e)) [
    | inl b ↦ rw b (
        session-run x finish (on_fail_discovery command (discovery_error e) w.planner_max_retries) _
          (λ retry. retry_or_done w retry) t refl)
    | inr b ↦ rw b refl
  ]

  abbrev pub discovery_calls :
      (CaptureRequest → Capture BrowserOperationResult) → (ℕ → ℕ) → Db → List (ℕ × Call)
  discovery_calls capture ids =
      protocol x others start (on_claim_discovery command w.worker_id w.worker_lease_ms)
        (claim_discovery command w.worker_id w.worker_lease_ms start)
        (λ op t. close_discovery op ids (capture (discovery_request x.settings op)))

  pub run_discovery-calls :
      (capture : CaptureRequest → Capture BrowserOperationResult) (ids : ℕ → ℕ) (s : Db)
      → (Pages.run_discovery w command x.rules x.settings capture
          (run x others)
          ids
          start
          finish
          s).1
        ≡ run x (discovery_calls capture ids s) s
  unfolding Pages.run_discovery perform
  run_discovery-calls capture ids s =
      claimed-run x others start _ _ _
        (λ op t.
          conclude_discovery w command x.rules x.settings op
            (capture (discovery_request x.settings op)) ids finish t)
        s refl (λ op t. close_discovery-run op ids (capture (discovery_request x.settings op)) t)

  module _ {Document : Type 0}
      (extract : ExtractionOperation → String → Document → ExtractionResult) where
    -- the records of a document are stored; a missing document and an error are failures
    abbrev pub close_extraction :
        ExtractionOperation → (ℕ → ℕ) → ℕ → Capture (DocumentCapture Document) → List (ℕ × Call)
    close_extraction op ids run_id (captured result) =
        (
          finish,
          maybe result.document (on_fail_extraction command no_document w.extraction_max_retries)
              (λ document.
                on_complete_extraction_page op (extract op result.final_url document) ids run_id),
        )
        ∷ []
    close_extraction op ids run_id (failed e message) =
        unless_uncaught (is_engine_error e) finish
          (on_fail_extraction command (extraction_error e) w.extraction_max_retries)

    abbrev pub extraction_calls :
        (CaptureRequest → Capture (DocumentCapture Document)) → (ℕ → ℕ) → ℕ → Db → List (ℕ × Call)
    extraction_calls capture ids run_id =
        protocol x others start (on_claim_extraction command w.worker_id w.worker_lease_ms)
          (claim_extraction command w.worker_id w.worker_lease_ms start)
          (λ op t. close_extraction op ids run_id (capture (extraction_request w op)))

    module _ (same_limit : x.server_max_records ≡ w.extraction_max_records) where
      close_extraction-run :
          (op : ExtractionOperation) (ids : ℕ → ℕ) (run_id : ℕ)
          (answer : Capture (DocumentCapture Document)) (t : Db)
          → (conclude_extraction w command extract op answer ids run_id finish t).1
            ≡ run x (close_extraction op ids run_id answer) t
      unfolding conclude_extraction perform run
      close_extraction-run op ids run_id (captured result) t = elim (Option-cases result.document) [
        | inl n ↦ rw n (
            session-run x finish (on_fail_extraction command no_document w.extraction_max_retries) _
              (λ retry. done) t refl)
        | inr (document, n) ↦ rw n (
            session-run x finish
              (on_complete_extraction_page op (extract op result.final_url document) ids run_id)
              (complete_extraction_page op (extract op result.final_url document)
                w.extraction_max_records ids run_id finish)
              (λ u. done) t
              (ap
                (λ limit.
                  commit
                    (complete_extraction_page op (extract op result.final_url document) limit ids
                      run_id finish)
                    t)
                same_limit))
      ]
      close_extraction-run op ids run_id (failed e message) t =
          elim (Bool-cases (is_engine_error e)) [
            | inl b ↦ rw b (
                session-run x finish
                  (on_fail_extraction command (extraction_error e) w.extraction_max_retries) _
                  (λ retry. retry_or_done w retry) t refl)
            | inr b ↦ rw b refl
          ]

      pub run_extraction-calls :
          (capture : CaptureRequest → Capture (DocumentCapture Document)) (ids : ℕ → ℕ) (run_id : ℕ)
          (s : Db)
          → (Pages.run_extraction w command extract capture
              (run x others)
              ids
              run_id
              start
              finish
              s).1
            ≡ run x (extraction_calls capture ids run_id s) s
      unfolding Pages.run_extraction perform
      run_extraction-calls capture ids run_id s =
          claimed-run x others start _ _ _
            (λ op t.
              conclude_extraction w command extract op (capture (extraction_request w op)) ids
                run_id finish t)
            s refl
            (λ op t. close_extraction-run op ids run_id (capture (extraction_request w op)) t)
