-- ===== src/Tests/Workers.antt =====
-- The theorems about the worker's handlers at concrete inputs.
use web_data_extraction_engi.Prelude.{
  ℕ, ◌+◌, ◌≡◌, ◌≢◌, refl, true, false, [], ◌∷◌, some, none, String, arith,
}
use web_data_extraction_engi.Domain.{queued, extracting, browser_initializing}
use web_data_extraction_engi.Store.{Db, Job, CommandType}
use web_data_extraction_engi.Store.Jobs.{find_job}
use web_data_extraction_engi.Service.Recovery.{is_expired}
use web_data_extraction_engi.System.{run, initial, on_create, on_cancel}
use web_data_extraction_engi.Worker.{WorkerConfig, done, retry_after}
use web_data_extraction_engi.Worker.Errors.{BrowserError, PlannerError}
use web_data_extraction_engi.Worker.Planning.{Planner, refused}
use web_data_extraction_engi.Worker.Pages.{
  captured, failed, DocumentCapture, run_browser_capture, conclude_extraction,
}
use web_data_extraction_engi.Worker.Export.{World, ended, stored, run_export as export_handler}
use web_data_extraction_engi.Worker.Handlers.{Engines, Delivery, handle}
use web_data_extraction_engi.Worker.Handlers.Refinement.{handle-calls}
use web_data_extraction_engi.Worker.Handlers.Phases.{planning_calls, validation_calls}
use web_data_extraction_engi.Worker.Handlers.Browsing.{
  capture_calls, discovery_calls, extraction_calls,
}
use web_data_extraction_engi.Worker.Retries.{deliver, deliver-terminates}
use web_data_extraction_engi.Worker.Failures.{
  run_browser_capture-NoRetry, conclude_extraction-stuck,
}
use web_data_extraction_engi.Demo.{
  externals, projects, request, command, job_in, store_of, extraction, extracted, verdict, file,
}

abbrev config : WorkerConfig
config = record {
  worker_id = "w";
  worker_lease_ms = 1_000;
  planner_max_retries = 2;
  extraction_max_retries = 2;
  extraction_max_records = 10;
  extraction_max_document_chars = 1_024;
  extraction_max_document_items = 5;
  export_max_retries = 2;
  export_max_records = 10;
  export_max_bytes = 100;
  artifact_retention_ms = 1_000;
  uniform = λ high. 0;
}

-- a planner that is always busy
abbrev busy : Planner
busy = record {
  create_plan = λ op. refused PlannerError.rate_limited "busy";
  plan_hash = λ p. "h";
  provider_name = "p";
  model_name = "m";
}

abbrev engines : Engines String ℕ
engines = record {
  planner = busy;
  capture = λ r. failed BrowserError.browser_timeout "late";
  capture_document = λ r. captured (record { final_url = r.url; document = none });
  extract = λ op final_url document. extracted;
  validate = λ op r. verdict;
  field_names = λ p. "name" ∷ [];
  payload_fields = λ r. [];
  id_text = λ id. "id";
  render = λ d format. ended 3;
  put = λ size. stored file;
  deletions = record { refused = ended tt; clearing = true };
}

abbrev delivery : Delivery
delivery = record {
  page_id = 20;
  run_id = 30;
  ids = λ n. n + 100;
  request_key = "k";
  others = (250, on_cancel 5 7 9) ∷ [];
  later = [];
  late = false;
  start = 200;
  finish = 300;
}

abbrev start : World
start = record { db = store_of (job_in queued 0 none); files = [] }

handle-calls_example :
    ((handle config externals engines delivery command CommandType.run_planning start).1.db
      ≡ run externals
          (planning_calls externals config delivery.others 200 300 command busy start.db)
          start.db)
    × ((handle config externals engines delivery command CommandType.run_browser_capture start).1.db
        ≡ run externals
            (capture_calls externals config delivery.others 200 300 command engines.capture 20
              start.db)
            start.db)
    × ((handle config externals engines delivery command CommandType.run_discovery start).1.db
        ≡ run externals
            (discovery_calls externals config delivery.others 200 300 command engines.capture
              delivery.ids start.db)
            start.db)
    × ((handle config externals engines delivery command CommandType.run_extraction start).1.db
        ≡ run externals
            (extraction_calls externals config delivery.others 200 300 command engines.extract
              engines.capture_document delivery.ids 30 start.db)
            start.db)
    × ((handle config externals engines delivery command CommandType.run_validation start).1.db
        ≡ run externals
            (validation_calls externals config delivery.others 200 300 command engines.validate "k"
              delivery.ids start.db)
            start.db)
handle-calls_example = handle-calls config externals engines delivery command start refl

deliver-terminates_example :
    (u : Db) × (deliver config command externals 3 0
        (λ n. (busy, [], 300 + n, 400 + n))
        (run externals ((200, on_create request 7 none 5 3 9) ∷ []) (initial projects))
      ≡ some u)
deliver-terminates_example =
    deliver-terminates config command externals ((200, on_create request 7 none 5 3 9) ∷ [])
      projects (λ n. (busy, [], 300 + n, 400 + n))

run_browser_capture-NoRetry_example :
    (run_browser_capture config command
      (λ r. failed BrowserError.browser_timeout "late")
      (λ s. s)
      20
      200
      300
      (store_of (job_in browser_initializing 0 none))).0
    ≢ retry_after 1_000
run_browser_capture-NoRetry_example =
    run_browser_capture-NoRetry config command (λ r. failed BrowserError.browser_timeout "late")
      (λ s. s) 20 200 300 (store_of (job_in browser_initializing 0 none)) 1_000

abbrev extracting_store : Db
extracting_store = store_of (job_in extracting 0 (some 900))

found : find_job 5 extracting_store.jobs ≡ some (job_in extracting 0 (some 900))
unfolding find_job
found = refl

abbrev no_page : DocumentCapture String
no_page = record { final_url = "https://example.com/"; document = none }

conclude_extraction-stuck_example :
    ((conclude_extraction config command engines.extract extraction
        (captured no_page)
        (λ n. n)
        30
        300
        extracting_store).0
      ≡ done)
    × ((conclude_extraction config command engines.extract extraction
          (captured no_page)
          (λ n. n)
          30
          300
          extracting_store).1.outbox
        ≡ extracting_store.outbox)
    × ((k : Job) × (find_job 5
            (conclude_extraction config command engines.extract extraction
              (captured no_page)
              (λ n. n)
              30
              300
              extracting_store).1.jobs
          ≡ some k)
        × (k.status ≡ extracting)
        × ((now : ℕ) → is_expired now k ≡ false))
conclude_extraction-stuck_example =
    conclude_extraction-stuck config command engines.extract extraction no_page (λ n. n) 30 300
      extracting_store (job_in extracting 0 (some 900)) refl found refl refl (omega arith)
