-- ===== src/Demo.antt =====
-- A small store and small arguments, on which the theorems are tried.
use web_data_extraction_engi.Prelude.{ℕ, true, false, List, [], ◌∷◌, Option, none, some, String}
use web_data_extraction_engi.Domain.{JobStatus}
use web_data_extraction_engi.Domain.{planning}
use web_data_extraction_engi.Store.{
  Db, Project, Source, Job, JobOptions, CanonicalPlan, Command, phase_key,
}
use web_data_extraction_engi.Discovery.{Settings, UrlRules}
use web_data_extraction_engi.Service.Columns.{Failure}
use web_data_extraction_engi.Service.Creation.{JobCreateRequest}
use web_data_extraction_engi.Service.Browser.{NavigationSignal, BrowserOperationResult}
use web_data_extraction_engi.Service.Discovery.{DiscoveryOperation}
use web_data_extraction_engi.Service.Extraction.{ExtractionOperation, ExtractionResult}
use web_data_extraction_engi.Service.Validation.{ValidationOperation, Verdict}
use web_data_extraction_engi.Service.Export.{ExportOperation, StoredFile}
use web_data_extraction_engi.Store.{RecordPolicy}
use web_data_extraction_engi.System.{Externals, initial}

abbrev pub options : JobOptions
options = record {
  max_pages = 2;
  max_records = 10;
  follow_pagination = true;
  follow_relevant_links = true;
  deduplicate = true;
  validate_results = true;
}

abbrev pub projects : List Project
projects = record { id = 1; owner_id = 7 } ∷ []

abbrev pub url : String
url = "https://example.com/"

abbrev pub source : Source
source = record { id = 3; project_id = 1; canonical_url = url; domain = "example.com" }

-- the job 5 of that source, in the given state, under a lease
abbrev pub job_in : JobStatus → ℕ → Option ℕ → Job
job_in status attempt lease_expires_at = record {
  id = 5;
  project_id = 1;
  source_id = 3;
  status = status;
  status_version = 1;
  task_description = "collect the products";
  requested_fields = "name" ∷ [];
  options = options;
  output_formats = "csv" ∷ [];
  progress_percent = 10;
  pages_discovered = 0;
  pages_processed = 0;
  records_found = 0;
  last_error_code = none;
  last_error_message = none;
  retryable = false;
  attempt = attempt;
  max_attempts = 3;
  cancel_requested_at = none;
  cancelled_by = none;
  correlation_id = 9;
  lease_owner = none;
  lease_expires_at = lease_expires_at;
  created_at = 100;
  started_at = some 100;
  completed_at = none;
  updated_at = 100;
}

abbrev pub store_of : Job → Db
store_of job = record (initial projects) { sources = source ∷ []; jobs = job ∷ [] }

abbrev pub command : Command
command = record {
  job_id = 5;
  project_id = 1;
  correlation_id = 9;
  operation_key = phase_key 5 "planning" 1;
  attempt = 1;
  page_id = none;
  validation_run_id = none;
  export_job_id = none;
}

abbrev pub plan : CanonicalPlan
plan = record {
  plan_version = 1;
  schema_version = "1";
  source_url = url;
  follow_pagination = true;
  follow_relevant_links = true;
  limits = record { max_pages = 2; max_records = 10 };
}

abbrev pub request : JobCreateRequest
request = record {
  project_id = 1;
  source_url = url;
  task = "collect the products";
  fields = "name" ∷ [];
  options = options;
  output_formats = "csv" ∷ [];
}

abbrev pub rules : UrlRules
rules = record {
  canonicalize_url = λ u base. some u;
  allows = λ p u. (true, "ALLOWED");
  is_pagination_signal = λ g u. false;
  relevance_reason = λ p g u. "link";
  byte_length = λ t. 4;
  locations = λ t. some ("https://example.com/a" ∷ "https://example.com/a" ∷ []);
  default_sitemap_url = λ u. none;
}

abbrev pub settings : Settings
settings = record {
  discovery_max_pages = 2;
  discovery_max_depth = 2;
  discovery_max_links_per_page = 5;
  discovery_enable_sitemaps = true;
  discovery_sitemap_max_bytes = 100;
  discovery_sitemap_max_urls = 5;
}

abbrev pub signals : List NavigationSignal
signals =
    record { href = "https://example.com/b"; text = "b"; rel = ""; aria_label = "" }
    ∷ record { href = "https://example.com/"; text = "home"; rel = ""; aria_label = "" }
    ∷ []

abbrev pub failure : Failure
failure = record { code = "E"; message = "failed"; retryable = true }

abbrev pub capture : BrowserOperationResult
capture = record {
  navigation = record {
    requested_url = url;
    final_url = url;
    status = some 200;
    content_type = none;
    title = none;
    navigation_time_ms = 5;
    redirect_count = 0;
  };
  events = [];
  artifacts = [];
  navigation_signals = signals;
  document_text = none;
}

abbrev pub discovery : DiscoveryOperation
discovery = record {
  job_id = 5;
  project_id = 1;
  correlation_id = 9;
  operation_key = phase_key 5 "discovery" 1;
  page_id = 20;
  page_url = url;
  page_depth = 0;
  page_method = none;
  source_domain = "example.com";
  plan = plan;
}

abbrev pub extraction : ExtractionOperation
extraction = record {
  job_id = 5;
  project_id = 1;
  correlation_id = 9;
  operation_key = phase_key 5 "extraction" 1;
  page_id = 20;
  page_url = url;
  source_domain = "example.com";
  plan = plan;
}

abbrev pub extracted : ExtractionResult
extracted = record { identities = "x" ∷ []; warnings = []; document_truncated = false }

abbrev pub validation : ValidationOperation
validation = record {
  job_id = 5;
  project_id = 1;
  correlation_id = 9;
  operation_key = phase_key 5 "validation" 1;
  validation_run_id = 30;
  plan = plan;
}

abbrev pub verdict : Verdict
verdict = record {
  status = "VALID";
  quality = "HIGH";
  passed = 1;
  failed = 0;
  warned = 0;
  unresolved = 0;
}

abbrev pub export : ExportOperation
export = record {
  job_id = 5;
  project_id = 1;
  correlation_id = 9;
  operation_key = phase_key 5 "export" 1;
  export_job_id = 40;
  validation_run_id = 30;
  format_name = "csv";
  options = record {
    record_policy = RecordPolicy.all_records;
    include_validation_metadata = false;
    include_provenance_metadata = false;
  };
}

abbrev pub file : StoredFile
file = record {
  storage_key = "k";
  media_type = "text/csv";
  byte_size = 3;
  checksum = "c";
  expires_at = none;
}

abbrev pub externals : Externals
externals = record {
  validate_initial_url = λ u. some (record { canonical_url = u; domain = "example.com" });
  request_fingerprint = λ r. r.task;
  rules = rules;
  settings = settings;
  server_max_records = 10;
}

-- no randomness
abbrev pub no_jitter : ℕ → ℕ
no_jitter high = 0

abbrev pub in_planning : Db
in_planning = store_of (job_in planning 0 (some 250))
