-- ===== src/Store.antt =====
-- services/api/src/wde_api/models.py: the rows and the tables of the durable store.
-- Row identifiers (UUIDs) and times are numbers; a time counts milliseconds.
pub mod Tx
pub mod Jobs
pub mod Events
pub mod Tables
use web_data_extraction_engi.Prelude.{ℕ, Bool, List, Option, String}
use web_data_extraction_engi.Domain.{JobStatus}

-- `JobOptions` of schemas.py, as stored in the job's `options`
pub record JobOptions : Type 0 where
  pub max_pages : ℕ
  pub max_records : ℕ
  pub follow_pagination : Bool
  pub follow_relevant_links : Bool
  pub deduplicate : Bool
  pub validate_results : Bool

pub record Project : Type 0 where
  pub id : ℕ
  pub owner_id : ℕ

pub record Source : Type 0 where
  pub id : ℕ
  pub project_id : ℕ
  pub canonical_url : String
  pub domain : String

pub record Job : Type 0 where
  pub id : ℕ
  pub project_id : ℕ
  pub source_id : ℕ
  pub status : JobStatus
  pub status_version : ℕ
  pub task_description : String
  pub requested_fields : List String
  pub options : JobOptions
  pub output_formats : List String
  pub progress_percent : ℕ
  pub pages_discovered : ℕ
  pub pages_processed : ℕ
  pub records_found : ℕ
  pub last_error_code : Option String
  pub last_error_message : Option String
  pub retryable : Bool
  pub attempt : ℕ
  pub max_attempts : ℕ
  pub cancel_requested_at : Option ℕ
  pub cancelled_by : Option ℕ
  pub correlation_id : ℕ
  pub lease_owner : Option String
  pub lease_expires_at : Option ℕ
  pub created_at : ℕ
  pub started_at : Option ℕ
  pub completed_at : Option ℕ
  pub updated_at : ℕ

-- the bounds that the services read from a `CanonicalPlan` of planner_types.py
pub record PlanLimits : Type 0 where
  pub max_pages : ℕ
  pub max_records : ℕ

pub record CanonicalPlan : Type 0 where
  pub plan_version : ℕ
  pub schema_version : String
  pub source_url : String
  pub follow_pagination : Bool
  pub follow_relevant_links : Bool
  pub limits : PlanLimits

pub record ExtractionPlan : Type 0 where
  pub job_id : ℕ
  pub version : ℕ
  pub plan : CanonicalPlan
  pub model_name : String
  pub provider_name : String
  pub plan_hash : String

-- `InventoryStatus` of discovery_types.py, with the `"CAPTURED"` of `complete_browser_capture`
pub data PageStatus : Type 0 where
  discovered queued visited rejected duplicate failed skipped captured : PageStatus

pub data DiscoveryMethod : Type 0 where
  source link pagination relevant_link sitemap : DiscoveryMethod

-- `Page.extraction_status`
pub data PageExtraction : Type 0 where
  pending extracting extracted partial failed skipped : PageExtraction

-- the navigation columns of a page, which are written together
pub record Navigation : Type 0 where
  pub requested_url : String
  pub final_url : String
  pub status : Option ℕ
  pub content_type : Option String
  pub title : Option String
  pub navigation_time_ms : ℕ
  pub redirect_count : ℕ

-- `Page.extraction_metadata`
pub record PageReport : Type 0 where
  pub records_created : ℕ
  pub warnings : List String
  pub truncated : Bool

pub record Page : Type 0 where
  pub id : ℕ
  pub job_id : ℕ
  pub url : String
  pub canonical_url : String
  pub status : PageStatus
  pub discovered_at : Option ℕ
  pub captured_at : Option ℕ
  pub navigation : Option Navigation
  pub discovered_via : Option DiscoveryMethod
  pub depth : ℕ
  pub parent_page_id : Option ℕ
  pub policy_decision : Option String
  pub relevance_reason : Option String
  pub signal_count : Option ℕ
  pub visited_at : Option ℕ
  pub extraction_status : Option PageExtraction
  pub extraction_report : Option PageReport
  pub extraction_started_at : Option ℕ
  pub extraction_completed_at : Option ℕ

pub record BrowserArtifact : Type 0 where
  pub job_id : ℕ
  pub page_id : ℕ
  pub artifact_type : String
  pub storage_key : String
  pub expires_at : Option ℕ

-- `payload`, `content_hash` and `confidence` are data that no service branches on
pub record Record : Type 0 where
  pub id : ℕ
  pub job_id : ℕ
  pub page_id : ℕ
  pub record_identity : String
  pub plan_version : ℕ

pub data RunStatus : Type 0 where
  queued running completed : RunStatus

-- `ValidationRun.summary`
pub record Totals : Type 0 where
  pub records : ℕ
  pub passed : ℕ
  pub failed : ℕ
  pub warnings : ℕ
  pub unresolved : ℕ

-- the keys of outbox rows and runs; the source's texts of different forms differ
pub data OperationKey : Type 0 where
  -- f"job:{job}:{phase}:{attempt}"
  phase_key : ℕ → String → ℕ → OperationKey
  -- f"job:{job}:discovery:source:1"
  discovery_source_key : ℕ → OperationKey
  -- f"job:{job}:discovery:page:{page}:1"
  discovery_page_key : ℕ → ℕ → OperationKey
  -- f"job:{job}:extraction:page:{page}:{plan_version}"
  extraction_page_key : ℕ → ℕ → ℕ → OperationKey
  -- f"job:{job}:validation:run:{run_number}"
  validation_key : ℕ → ℕ → OperationKey
  -- f"export:{export}:attempt:{attempt}"
  export_key : ℕ → ℕ → OperationKey

pub record ValidationRun : Type 0 where
  pub id : ℕ
  pub job_id : ℕ
  pub run_number : ℕ
  pub operation_key : OperationKey
  pub status : RunStatus
  pub plan_version : ℕ
  pub summary : Option Totals
  pub started_at : Option ℕ
  pub completed_at : Option ℕ

pub record ValidationResult : Type 0 where
  pub job_id : ℕ
  pub record_id : ℕ
  pub validation_run_id : ℕ
  pub status : String
  pub quality : String

pub data RecordPolicy : Type 0 where
  all_records valid_only valid_and_warnings : RecordPolicy

-- `ExportOptions` of export_types.py
pub record ExportOptions : Type 0 where
  pub record_policy : RecordPolicy
  pub include_validation_metadata : Bool
  pub include_provenance_metadata : Bool

pub data ExportStatus : Type 0 where
  queued running completed failed cancelled : ExportStatus

pub record ExportJob : Type 0 where
  pub id : ℕ
  pub job_id : ℕ
  pub validation_run_id : ℕ
  pub format : String
  pub request_key : String
  pub options : ExportOptions
  pub status : ExportStatus
  pub error_code : Option String
  pub error_message : Option String
  pub attempt : ℕ
  pub started_at : Option ℕ
  pub completed_at : Option ℕ

pub record GeneratedFile : Type 0 where
  pub export_job_id : ℕ
  pub storage_key : String
  pub media_type : String
  pub byte_size : ℕ
  pub checksum : String
  pub expires_at : Option ℕ

-- of an event's payload, the entries that the services always or first of all write
pub record ProgressEvent : Type 0 where
  pub job_id : ℕ
  pub sequence_no : ℕ
  pub event_type : String
  pub stage : JobStatus
  pub percent : Option ℕ
  pub correlation_id : ℕ

pub record IdempotencyKey : Type 0 where
  pub project_id : ℕ
  pub key : String
  pub request_hash : String
  pub job_id : ℕ

pub data CommandType : Type 0 where
  run_planning run_browser_capture run_discovery run_extraction : CommandType
  run_validation run_export : CommandType

-- the payload of an outbox row, which the worker's handler receives
pub record Command : Type 0 where
  pub job_id : ℕ
  pub project_id : ℕ
  pub correlation_id : ℕ
  pub operation_key : OperationKey
  pub attempt : ℕ
  pub page_id : Option ℕ
  pub validation_run_id : Option ℕ
  pub export_job_id : Option ℕ

pub record WorkOutbox : Type 0 where
  pub command_type : CommandType
  pub command : Command
  pub attempt : ℕ
  pub available_at : ℕ
  pub published_at : Option ℕ
  pub created_at : ℕ

pub record Db : Type 0 where
  pub projects : List Project
  pub sources : List Source
  pub jobs : List Job
  pub plans : List ExtractionPlan
  pub pages : List Page
  pub artifacts : List BrowserArtifact
  pub records : List Record
  pub runs : List ValidationRun
  pub results : List ValidationResult
  pub exports : List ExportJob
  pub files : List GeneratedFile
  pub events : List ProgressEvent
  pub keys : List IdempotencyKey
  pub outbox : List WorkOutbox
