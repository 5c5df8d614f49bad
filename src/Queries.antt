-- ===== src/Queries.antt =====
-- services/api/src/wde_api/services.py: the queries `status`, `results`, `pages` and `events_after`.
-- Columns that the model's rows leave out are arguments: the time at which a record was created and
-- the fields of a record's payload.
pub mod Files
pub mod Pagination
pub mod Resuming
pub mod Removal
pub mod Expiry
use web_data_extraction_engi.Prelude.{
  ℕ, ◌+◌, ◌-◌, ◌*◌, Bool, true, false, not, ◌&&◌, ◌||◌, List, [], ◌∷◌, ◌++◌, Option, none, some,
  String, str_eq, map, length, take, drop, where_, first, first_by, count_if, any, maybe, is_some,
  ltb, leb, ◌==◌, if◌then◌else◌,
}
use web_data_extraction_engi.Prelude.Sorting.{sort_by}
use web_data_extraction_engi.Domain.{JobStatus}
use web_data_extraction_engi.Store.{
  Db, Job, Project, ExtractionPlan, Page, PageStatus, DiscoveryMethod, Record, ValidationResult,
  ValidationRun, Totals, ExportJob, ExportStatus, GeneratedFile, BrowserArtifact, ProgressEvent,
}
use web_data_extraction_engi.Store.Tx.{
  Tx, Result, ok, err, pure, raise, gets, some_or, ◌>>=◌, ◌>>◌, not_found,
}
use web_data_extraction_engi.Store.Jobs.{find_job}
use web_data_extraction_engi.Service.Lifecycle.{get_job, owns}
use web_data_extraction_engi.Service.Inventory.{latest_plan, page_order}
use web_data_extraction_engi.Service.Validation.{is_completed_run, no_totals}
use web_data_extraction_engi.Service.Export.{export_is, export_row}
use web_data_extraction_engi.Dataset.{Value, null}

-- `.offset((page - 1) * page_size).limit(page_size)`, for a page from 1 on
unfoldable pub page_of {ℓ} : {A : Type ℓ} → ℕ → ℕ → List A → List A
page_of page page_size rows = take page_size (drop ((page - 1) * page_size) rows)

pub record ErrorProjection : Type 0 where
  pub code : String
  pub message : String
  pub retryable : Bool
  pub correlation_id : ℕ

pub record PlanProjection : Type 0 where
  pub version : ℕ
  pub schema_version : String
  pub model_name : String
  pub plan_hash : String

-- `JobStatusResponse` with its progress
pub record JobStatusResponse : Type 0 where
  pub job_id : ℕ
  pub status : JobStatus
  pub percent : ℕ
  pub pages_discovered : ℕ
  pub pages_processed : ℕ
  pub records_found : ℕ
  pub updated_at : ℕ
  pub plan : Option PlanProjection
  pub error : Option ErrorProjection
  pub created_at : ℕ
  pub started_at : Option ℕ
  pub completed_at : Option ℕ

-- a text that is there and not empty
abbrev non_empty : Option String → Option String
non_empty text = maybe text none (λ s. if str_eq s "" then none else some s)

abbrev job_error : Job → Option ErrorProjection
job_error job = maybe (non_empty job.last_error_code) none λ code. some (record {
  code = code;
  message = maybe (non_empty job.last_error_message) "Job failed safely." (λ m. m);
  retryable = job.retryable;
  correlation_id = job.correlation_id;
})

abbrev plan_projection : ExtractionPlan → PlanProjection
plan_projection p = record {
  version = p.version;
  schema_version = p.plan.schema_version;
  model_name = p.model_name;
  plan_hash = p.plan_hash;
}

unfoldable pub status : ℕ → ℕ → Tx JobStatusResponse
status job_id principal_id = do
  job ← get_job job_id principal_id
  plan ← gets (latest_plan job_id)
  pure (record {
    job_id = job_id;
    status = job.status;
    percent = job.progress_percent;
    pages_discovered = job.pages_discovered;
    pages_processed = job.pages_processed;
    records_found = job.records_found;
    updated_at = job.updated_at;
    plan = maybe plan none (λ p. some (plan_projection p));
    error = job_error job;
    created_at = job.created_at;
    started_at = job.started_at;
    completed_at = job.completed_at;
  })

pub record ResultItemProjection (Number : Type 0) : Type 0 where
  pub record_id : ℕ
  pub record_identity : String
  pub values : List (String × Value Number)
  -- the status and the quality
  pub validation : Option (String × String)
  pub source_page_id : ℕ

pub record ResultsResponse (Number : Type 0) : Type 0 where
  pub job_id : ℕ
  pub plan_version : Option ℕ
  pub items : List (ResultItemProjection Number)
  pub page : ℕ
  pub page_size : ℕ
  pub total : ℕ
  pub validation_available : Bool
  pub validation_summary : Totals

-- the latest completed run of the job
abbrev pub completed_run : ℕ → Db → Option ValidationRun
completed_run job_id db =
    first_by (λ r s. ltb s.run_number r.run_number)
      (where_ (λ r. r.job_id == job_id && is_completed_run r.status) db.runs)

module _ {Number : Type 0} (payload_fields : Record → List (String × Option (Value Number)))
    (record_created : Record → ℕ) where
  -- `normalized_values`
  unfoldable pub normalized_values : Record → List (String × Value Number)
  normalized_values r = map (λ e. (e.0, maybe e.1 null (λ v. v))) (payload_fields r)

  -- `ORDER BY Record.created_at, Record.id`
  abbrev pub by_creation : Record → Record → Bool
  by_creation r s =
      ltb (record_created r) (record_created s)
      || (record_created r == record_created s && leb r.id s.id)

  -- the validation of a record in the run, if there is one
  abbrev pub validation_of : Option ValidationRun → Db → Record → Option (String × String)
  validation_of run db r = maybe run none λ v.
      maybe (first (λ x. x.validation_run_id == v.id && x.record_id == r.id) db.results) none
        (λ x. some (x.status, x.quality))

  unfoldable pub result_item : Option ValidationRun → Db → Record → ResultItemProjection Number
  unfolding normalized_values
  result_item run db r = record {
    record_id = r.id;
    record_identity = r.record_identity;
    values = normalized_values r;
    validation = validation_of run db r;
    source_page_id = r.page_id;
  }

  abbrev pub job_records : ℕ → Db → List Record
  job_records job_id db = where_ (λ r. r.job_id == job_id) db.records

  unfoldable pub results_response : ℕ → ℕ → ℕ → Db → ResultsResponse Number
  unfolding result_item page_of
  results_response job_id page page_size db =
      let run = completed_run job_id db in
      record {
        job_id = job_id;
        plan_version = maybe (latest_plan job_id db) none (λ p. some p.version);
        items =
            map (result_item run db)
              (page_of page page_size (sort_by by_creation (job_records job_id db)));
        page = page;
        page_size = page_size;
        total = length (job_records job_id db);
        validation_available = is_some run;
        validation_summary = maybe run no_totals (λ v. maybe v.summary no_totals (λ t. t));
      }

  unfoldable pub results : ℕ → ℕ → ℕ → ℕ → Tx (ResultsResponse Number)
  unfolding results_response
  results job_id principal_id page page_size = do
    job ← get_job job_id principal_id
    gets (results_response job_id page page_size)

pub record PageInventoryItem : Type 0 where
  pub page_id : ℕ
  pub url : String
  pub canonical_url : String
  pub status : PageStatus
  pub discovered_via : Option DiscoveryMethod
  pub depth : ℕ
  pub parent_page_id : Option ℕ
  pub discovered_at : Option ℕ
  pub visited_at : Option ℕ
  pub http_status : Option ℕ
  pub content_type : Option String
  pub title : Option String
  pub policy_decision : Option String
  pub relevance_reason : Option String

pub record PageInventoryResponse : Type 0 where
  pub job_id : ℕ
  pub items : List PageInventoryItem
  pub page : ℕ
  pub page_size : ℕ
  pub total : ℕ

unfoldable pub inventory_item : Page → PageInventoryItem
inventory_item p = record {
  page_id = p.id;
  url = p.url;
  canonical_url = p.canonical_url;
  status = p.status;
  discovered_via = p.discovered_via;
  depth = p.depth;
  parent_page_id = p.parent_page_id;
  discovered_at = p.discovered_at;
  visited_at = p.visited_at;
  http_status = maybe p.navigation none (λ n. n.status);
  content_type = maybe p.navigation none (λ n. n.content_type);
  title = maybe p.navigation none (λ n. n.title);
  policy_decision = p.policy_decision;
  relevance_reason = p.relevance_reason;
}

-- `ORDER BY Page.depth, Page.discovered_at, Page.id`
abbrev pub by_depth : Page → Page → Bool
by_depth p q = not (page_order (λ r. r.discovered_at) q p)

abbrev pub job_pages : ℕ → Db → List Page
job_pages job_id db = where_ (λ p. p.job_id == job_id) db.pages

unfoldable pub inventory : ℕ → ℕ → ℕ → Db → PageInventoryResponse
unfolding inventory_item page_of
inventory job_id page page_size db = record {
  job_id = job_id;
  items = map inventory_item (page_of page page_size (sort_by by_depth (job_pages job_id db)));
  page = page;
  page_size = page_size;
  total = length (job_pages job_id db);
}

unfoldable pub pages : ℕ → ℕ → ℕ → ℕ → Tx PageInventoryResponse
unfolding inventory
pages job_id principal_id page page_size = do
  job ← get_job job_id principal_id
  gets (inventory job_id page page_size)

-- `events_after`
unfoldable pub events_after : ℕ → ℕ → Db → List ProgressEvent
events_after job_id after_sequence db =
    sort_by (λ e f. leb e.sequence_no f.sequence_no)
      (where_ (λ e. e.job_id == job_id && ltb after_sequence e.sequence_no) db.events)
