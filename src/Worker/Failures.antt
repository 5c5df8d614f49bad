-- ===== src/Worker/Failures.antt =====
-- worker.py: failures that the handlers of pages do not retry.
use web_data_extraction_engi.Prelude.{
  ℕ, ◌+◌, ◌≤◌, ◌≡◌, ◌≢◌, refl, Bool, true, false, ◌||◌, Bool-cases, Option-cases, inl, inr, Option,
  none, some, maybe, arith, leb, is_some, if◌then◌else◌, String,
}
use web_data_extraction_engi.Domain.{extracting, cancelled, status_eq, retry_delay}
use web_data_extraction_engi.Store.{Db, Job, Command}
use web_data_extraction_engi.Store.Tx.{Result, ok, err, pure, continue, ◌>>=◌}
use web_data_extraction_engi.Store.Jobs.{find_job, modify_job, update_job, keep_id}
use web_data_extraction_engi.Store.Events.{append_event}
use web_data_extraction_engi.Store.Tables.{modify_page}
use web_data_extraction_engi.Service.Columns.{Failure, set_failure, count_attempt}
use web_data_extraction_engi.Service.Browser.{
  BrowserOperationRequest, BrowserOperationResult, prepare_browser_capture, fail_browser_capture,
}
use web_data_extraction_engi.Service.Extraction.{
  ExtractionOperation, ExtractionResult, fail_extraction, mark_extraction,
}
use web_data_extraction_engi.Service.Recovery.{is_expired}
use web_data_extraction_engi.Worker.{WorkerConfig, Answer, done, retry_after, proceed, session}
use web_data_extraction_engi.Worker.Errors.{
  BrowserError, browser_failure, is_engine_error, browser_retryable, is_browser_cancelled,
  no_document,
}
use web_data_extraction_engi.Worker.Pages.{
  Capture, captured, failed, CaptureRequest, DocumentCapture, source_request, conclude_capture,
  run_browser_capture, conclude_extraction,
}
use web_data_extraction_engi.Worker.Retries.{counted_row}

-- a transaction that ends by answering false
ends_false :
    {A : Type 0} (r : Result (A × Db)) (t : Db) (b : Bool)
    → continue r (λ a. pure false) ≡ ok (b, t)
    → b ≡ false
unfolding pure
ends_false (ok (a, u)) t b h = cc h
ends_false (err e) t b h = cc h

fail_browser_capture-final :
    (c : Command) (e : Failure) (browser_cancelled b : Bool) (now : ℕ) (s t : Db)
    → e.retryable ≡ false
    → fail_browser_capture c e browser_cancelled now s ≡ ok (b, t)
    → b ≡ false
unfolding fail_browser_capture modify_job ◌>>=◌
fail_browser_capture-final c e browser_cancelled b now s t final h =
    elim (Option-cases (find_job c.job_id s.jobs)) [
      | inl gone ↦ cc (rw gone at h)
      | inr (job, found) ↦ elim (Bool-cases (status_eq job.status cancelled)) [
        | inl stopped ↦ cc (rw (found, stopped) at h)
        | inr going ↦ elim (Bool-cases (browser_cancelled || is_some job.cancel_requested_at)) [
          | inl stop ↦ ends_false _ t b (rw (found, going, stop) at h)
          | inr go ↦ ends_false _ t b (rw (found, going, go, final) at h)
        ]
      ]
    ]

-- the failures that the handlers catch are not retryable
caught-final : (e : BrowserError) → is_engine_error e ≡ true → browser_retryable e ≡ false
caught-final BrowserError.launch_failed h = cc h
caught-final BrowserError.browser_timeout h = refl
caught-final BrowserError.navigation_timeout h = refl
caught-final BrowserError.navigation_failed h = cc h
caught-final BrowserError.browser_crashed h = cc h
caught-final BrowserError.page_crashed h = cc h
caught-final BrowserError.browser_cancelled h = refl
caught-final BrowserError.resource_limit h = refl
caught-final BrowserError.download_too_large h = refl
caught-final (BrowserError.policy_blocked code) h = refl

abbrev NoRetry : Answer × Db → Type 0
NoRetry r = (d : ℕ) → r.0 ≢ retry_after d

module _ (w : WorkerConfig) (c : Command) where
  reported-NoRetry :
      (r : Result (Bool × Db))
      → ((b : Bool) (t : Db) → r ≡ ok (b, t) → b ≡ false)
      → (s : Db)
      → NoRetry (
          proceed s r
            (λ b t. (if b then retry_after (retry_delay w.uniform c.attempt) else done, t)))
  reported-NoRetry (ok (b, t)) f s d q = cc (rw (f b t refl) at q)
  reported-NoRetry (err e) f s d q = cc q

  conclude_capture-NoRetry :
      (answer : Capture BrowserOperationResult) (page_id finish : ℕ) (s : Db)
      → NoRetry (conclude_capture w c answer page_id finish s)
  unfolding conclude_capture session browser_failure
  conclude_capture-NoRetry (captured result) page_id finish s = done_NoRetry _
    where
      done_NoRetry : (r : Result (Unit {0} × Db)) → NoRetry (proceed s r (λ u t. (done, t)))
      done_NoRetry (ok (u, t)) d q = cc q
      done_NoRetry (err e) d q = cc q
  conclude_capture-NoRetry (failed e message) page_id finish s =
      elim (Bool-cases (is_engine_error e)) [
        | inl caught ↦ rw caught (
            reported-NoRetry
              (fail_browser_capture c (browser_failure e message) (is_browser_cancelled e) finish s)
              (λ b t.
                fail_browser_capture-final c (browser_failure e message) (is_browser_cancelled e) b
                  finish s t (caught-final e caught))
              s)
        | inr other ↦ rw other (λ d q. cc q)
      ]

  -- Whatever the browser engine answers and whatever others commit meanwhile, the handler of a browser
  -- capture does not raise `Retry`.
  pub run_browser_capture-NoRetry :
      (capture : CaptureRequest → Capture BrowserOperationResult) (meanwhile : Db → Db)
      (page_id start finish : ℕ) (s : Db) (d : ℕ)
      → (run_browser_capture w c capture meanwhile page_id start finish s).0 ≢ retry_after d
  unfolding run_browser_capture session
  run_browser_capture-NoRetry capture meanwhile page_id start finish s =
      decide (prepare_browser_capture c w.worker_id start s)
    where
      decide :
          (r : Result (Option BrowserOperationRequest × Db))
          → NoRetry (
              proceed s r (λ prepared t.
                maybe prepared
                  (done, t)
                  (λ request.
                    conclude_capture w c
                      (capture (source_request request))
                      page_id
                      finish
                      (meanwhile t))))
      decide (ok (none, t)) d q = cc q
      decide (ok (some request, t)) d q =
          conclude_capture-NoRetry (capture (source_request request)) page_id finish (meanwhile t) d
            q
      decide (err e) d q = cc q

  module _ {Document : Type 0}
      (extract : ExtractionOperation → String → Document → ExtractionResult)
      (op : ExtractionOperation) (result : DocumentCapture Document) (ids : ℕ → ℕ)
      (run_id finish : ℕ) (s : Db) (job : Job) where
    abbrev left : Answer × Db
    left = conclude_extraction w c extract op (captured result) ids run_id finish s

    left-jobs :
        result.document ≡ none
        → find_job c.job_id s.jobs ≡ some job
        → job.status ≡ extracting
        → job.cancel_requested_at ≡ none
        → leb (job.attempt + 1) w.extraction_max_retries ≡ true
        → (left.0 ≡ done)
          × (left.1.outbox ≡ s.outbox)
          × (left.1.jobs
              ≡ update_job c.job_id count_attempt
                  (update_job c.job_id (set_failure no_document) s.jobs))
    unfolding conclude_extraction session fail_extraction mark_extraction modify_page modify_job
        append_event ◌>>=◌
    left-jobs empty found st n room = elim (Option-cases c.page_id) [
      | inl no_page ↦ (
        rw (empty, found, st, n, no_page, room),
        rw (empty, found, st, n, no_page, room),
        rw (empty, found, st, n, no_page, room),
      )
      | inr (page, its) ↦ (
        rw (empty, found, st, n, its, room),
        rw (empty, found, st, n, its, room),
        rw (empty, found, st, n, its, room),
      )
    ]

    -- A capture without a document, of a job in extraction that has attempts left and whose
    -- cancellation is not requested: the handler returns without raising `Retry` and queues no work,
    -- though the failure is retryable; the job stays in EXTRACTING without a lease, so the recovery of
    -- expired leases does not find it at any time.
    pub conclude_extraction-stuck :
        result.document ≡ none
        → find_job c.job_id s.jobs ≡ some job
        → job.status ≡ extracting
        → job.cancel_requested_at ≡ none
        → job.attempt + 1 ≤ w.extraction_max_retries
        → (left.0 ≡ done)
          × (left.1.outbox ≡ s.outbox)
          × ((k : Job) × (find_job c.job_id left.1.jobs ≡ some k)
              × (k.status ≡ extracting)
              × ((now : ℕ) → is_expired now k ≡ false))
    unfolding count_attempt set_failure
    conclude_extraction-stuck empty found st n room =
        let within : leb (job.attempt + 1) w.extraction_max_retries ≡ true = ground arith in
        let (answer, outbox, jobs) = left-jobs empty found st n within in
        (
          answer,
          outbox,
          (
            keep_id count_attempt (keep_id (set_failure no_document) job),
            rw jobs (counted_row c.job_id no_document s.jobs job found),
            st,
            λ now. rw st,
          ),
        )
