-- ===== src/System.antt =====
-- All transactions of `JobService` together: the calls that the HTTP handlers of main.py and the
-- worker's handlers of queue.py and worker.py make, one after another, on the shared tables.
pub mod Invariants
use web_data_extraction_engi.Prelude.{ℕ, Bool, List, [], ◌∷◌, Option, some, String}
use web_data_extraction_engi.Store.{Db, Project, Command, CanonicalPlan, Record}
use web_data_extraction_engi.Store.Tx.{Tx, Result, ok, err}
use web_data_extraction_engi.Discovery.{Settings, UrlRules}
use web_data_extraction_engi.Service.Columns.{Failure}
use web_data_extraction_engi.Service.Lifecycle.{cancel}
use web_data_extraction_engi.Service.Creation.{JobCreateRequest, CanonicalUrl, create_job}
use web_data_extraction_engi.Service.Planning.{claim_planning, complete_planning, fail_planning}
use web_data_extraction_engi.Service.Browser.{
  BrowserOperationResult, prepare_browser_capture, complete_browser_capture, fail_browser_capture,
}
use web_data_extraction_engi.Service.Discovery.{
  DiscoveryOperation, claim_discovery, complete_discovery_page, fail_discovery,
}
use web_data_extraction_engi.Service.Extraction.{
  ExtractionOperation, ExtractionResult, claim_extraction, complete_extraction_page,
  fail_extraction,
}
use web_data_extraction_engi.Service.Validation.{
  ValidationOperation, Verdict, claim_validation, complete_validation_run, fail_validation,
}
use web_data_extraction_engi.Service.Export.{
  ExportOperation, StoredFile, claim_export, complete_export, fail_export,
}
use web_data_extraction_engi.Service.Recovery.{recover_expired_leases}

-- what the calls take from outside of the tables
pub record Externals : Type 0 where
  pub validate_initial_url : String → Option CanonicalUrl
  pub request_fingerprint : JobCreateRequest → String
  pub rules : UrlRules
  pub settings : Settings
  pub server_max_records : ℕ

-- A call with its arguments; the numbers called `id` are UUIDs that the call draws.
pub data Call : Type 0 where
  -- principal, key, job id, source id, correlation id
  on_create : JobCreateRequest → ℕ → Option String → ℕ → ℕ → ℕ → Call
  -- job, principal, correlation id
  on_cancel : ℕ → ℕ → ℕ → Call
  -- worker, lease in milliseconds
  on_claim_planning : Command → String → ℕ → Call
  -- plan, its hash, provider and model
  on_complete_planning : Command → CanonicalPlan → String → String → String → Call
  on_fail_planning : Command → Failure → ℕ → Call
  on_prepare_browser_capture : Command → String → Call
  on_complete_browser_capture : Command → BrowserOperationResult → ℕ → Call
  on_fail_browser_capture : Command → Failure → Bool → Call
  on_claim_discovery : Command → String → ℕ → Call
  on_complete_discovery_page : DiscoveryOperation → BrowserOperationResult → (ℕ → ℕ) → Call
  on_fail_discovery : Command → Failure → ℕ → Call
  on_claim_extraction : Command → String → ℕ → Call
  on_complete_extraction_page : ExtractionOperation → ExtractionResult → (ℕ → ℕ) → ℕ → Call
  on_fail_extraction : Command → Failure → ℕ → Call
  on_claim_validation : Command → String → ℕ → Call
  on_complete_validation_run : ValidationOperation → (Record → Verdict) → String → (ℕ → ℕ) → Call
  on_fail_validation : Command → Failure → ℕ → Call
  on_claim_export : Command → String → ℕ → Call
  on_complete_export : ExportOperation → StoredFile → Call
  on_fail_export : Command → Failure → ℕ → Call
  -- the random part of the delays
  on_recover : (ℕ → ℕ) → Call

abbrev pub settled : {A : Type 0} → Db → Result (A × Db) → Db
settled db (ok (a, t)) = t
settled db (err e) = db

-- `async with session.begin()`: the writes are committed, or rolled back when the method raises
unfoldable pub commit : {A : Type 0} → Tx A → Db → Db
commit m db = settled db (m db)

module _ (x : Externals) (now : ℕ) where
  unfoldable pub perform : Call → Db → Db
  perform (on_create request principal_id key job_id source_id correlation_id) = commit (
      create_job x.validate_initial_url x.request_fingerprint request principal_id key job_id
        source_id correlation_id now)
  perform (on_cancel job_id principal_id correlation_id) =
      commit (cancel job_id principal_id correlation_id now)
  perform (on_claim_planning c worker_id lease_ms) =
      commit (claim_planning c worker_id lease_ms now)
  perform (on_complete_planning c plan hash provider model) =
      commit (complete_planning c plan hash provider model now)
  perform (on_fail_planning c e retries) = commit (fail_planning c e retries now)
  perform (on_prepare_browser_capture c worker_id) =
      commit (prepare_browser_capture c worker_id now)
  perform (on_complete_browser_capture c r page_id) =
      commit (complete_browser_capture c r page_id now)
  perform (on_fail_browser_capture c e is_cancelled) =
      commit (fail_browser_capture c e is_cancelled now)
  perform (on_claim_discovery c worker_id lease_ms) =
      commit (claim_discovery c worker_id lease_ms now)
  perform (on_complete_discovery_page op r ids) =
      commit (complete_discovery_page x.rules x.settings op r ids now)
  perform (on_fail_discovery c e retries) = commit (fail_discovery c e retries now)
  perform (on_claim_extraction c worker_id lease_ms) =
      commit (claim_extraction c worker_id lease_ms now)
  perform (on_complete_extraction_page op r ids run_id) =
      commit (complete_extraction_page op r x.server_max_records ids run_id now)
  perform (on_fail_extraction c e retries) = commit (fail_extraction c e retries now)
  perform (on_claim_validation c worker_id lease_ms) =
      commit (claim_validation c worker_id lease_ms now)
  perform (on_complete_validation_run op validate request_key ids) =
      commit (complete_validation_run op validate request_key ids now)
  perform (on_fail_validation c e retries) = commit (fail_validation c e retries now)
  perform (on_claim_export c worker_id lease_ms) = commit (claim_export c worker_id lease_ms now)
  perform (on_complete_export op file) = commit (complete_export op file now)
  perform (on_fail_export c e retries) = commit (fail_export c e retries now)
  perform (on_recover uniform) = commit (recover_expired_leases uniform now)

-- a sequence of calls, each with its time
unfoldable pub run : Externals → List (ℕ × Call) → Db → Db
run x [] db = db
run x ((now, call) ∷ rest) db = run x rest (perform x now call db)

-- the tables after the migrations, with projects
abbrev pub initial : List Project → Db
initial projects = record {
  projects = projects;
  sources = [];
  jobs = [];
  plans = [];
  pages = [];
  artifacts = [];
  records = [];
  runs = [];
  results = [];
  exports = [];
  files = [];
  events = [];
  keys = [];
  outbox = [];
}
