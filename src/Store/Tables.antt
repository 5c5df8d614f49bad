-- ===== src/Store/Tables.antt =====
-- Insertions, each under the unique constraints that models.py declares for its table, and updates.
use web_data_extraction_engi.Prelude.{
  ℕ, Bool, false, ◌&&◌, ◌||◌, List, [], ◌∷◌, ◌++◌, none, ◌==◌, any, is_some, str_eq, if◌then◌else◌,
}
use web_data_extraction_engi.Store.{
  Db, Source, Job, ExtractionPlan, Page, BrowserArtifact, Record, ValidationRun, ValidationResult,
  ExportJob, GeneratedFile, IdempotencyKey, OperationKey, phase_key, discovery_source_key,
  discovery_page_key, extraction_page_key, validation_key, export_key, CommandType, Command,
  WorkOutbox,
}
use web_data_extraction_engi.Store.Tx.{Tx, ok, err, integrity_error}
use web_data_extraction_engi.Store.Jobs.{find_job}

abbrev pub key_eq : OperationKey → OperationKey → Bool
key_eq (phase_key j p n) (phase_key i q m) = j == i && str_eq p q && n == m
key_eq (discovery_source_key j) (discovery_source_key i) = j == i
key_eq (discovery_page_key j p) (discovery_page_key i q) = j == i && p == q
key_eq (extraction_page_key j p v) (extraction_page_key i q w) = j == i && p == q && v == w
key_eq (validation_key j r) (validation_key i q) = j == i && r == q
key_eq (export_key e n) (export_key f m) = e == f && n == m
key_eq _ _ = false

-- `session.add(row)` and its flush, where `clash` is the violation of a unique constraint
abbrev insert_unless : Bool → Db → Tx (Unit {0})
insert_unless clash after db = if clash then err integrity_error else ok (tt, after)

-- the primary key
unfoldable pub add_job : Job → Tx (Unit {0})
add_job j db =
    insert_unless (is_some (find_job j.id db.jobs)) (record db { jobs = db.jobs ++ j ∷ [] }) db

-- uq_sources_project_canonical_url
unfoldable pub add_source : Source → Tx (Unit {0})
add_source s db =
    insert_unless
      (any (λ r. r.project_id == s.project_id && str_eq r.canonical_url s.canonical_url) db.sources)
      (record db { sources = db.sources ++ s ∷ [] }) db

-- uq_plans_job_version
unfoldable pub add_plan : ExtractionPlan → Tx (Unit {0})
add_plan p db =
    insert_unless (any (λ r. r.job_id == p.job_id && r.version == p.version) db.plans)
      (record db { plans = db.plans ++ p ∷ [] }) db

-- the primary key and uq_pages_job_canonical_url
unfoldable pub add_page : Page → Tx (Unit {0})
add_page p db =
    insert_unless
      (any (λ r. r.id == p.id || (r.job_id == p.job_id && str_eq r.canonical_url p.canonical_url))
        db.pages)
      (record db { pages = db.pages ++ p ∷ [] }) db

-- uq_browser_artifacts_storage_key
unfoldable pub add_artifact : BrowserArtifact → Tx (Unit {0})
add_artifact a db =
    insert_unless (any (λ r. str_eq r.storage_key a.storage_key) db.artifacts)
      (record db { artifacts = db.artifacts ++ a ∷ [] }) db

-- uq_validation_runs_job_number and the unique operation key
unfoldable pub add_run : ValidationRun → Tx (Unit {0})
add_run v db =
    insert_unless
      (any
        (λ r.
          (r.job_id == v.job_id && r.run_number == v.run_number)
          || key_eq r.operation_key v.operation_key)
        db.runs)
      (record db { runs = db.runs ++ v ∷ [] }) db

-- uq_validation_run_record
unfoldable pub add_result : ValidationResult → Tx (Unit {0})
add_result v db =
    insert_unless
      (any (λ r. r.validation_run_id == v.validation_run_id && r.record_id == v.record_id)
        db.results)
      (record db { results = db.results ++ v ∷ [] }) db

-- the primary key and uq_exports_job_format_key
unfoldable pub add_export : ExportJob → Tx (Unit {0})
add_export e db =
    insert_unless
      (any
        (λ r.
          r.id == e.id
          || (r.job_id == e.job_id
              && str_eq r.format e.format
              && str_eq r.request_key e.request_key))
        db.exports)
      (record db { exports = db.exports ++ e ∷ [] }) db

-- uq_generated_files_storage_key
unfoldable pub add_file : GeneratedFile → Tx (Unit {0})
add_file f db =
    insert_unless (any (λ r. str_eq r.storage_key f.storage_key) db.files)
      (record db { files = db.files ++ f ∷ [] }) db

-- uq_idempotency_project_key
unfoldable pub add_key : IdempotencyKey → Tx (Unit {0})
add_key k db =
    insert_unless (any (λ r. r.project_id == k.project_id && str_eq r.key k.key) db.keys)
      (record db { keys = db.keys ++ k ∷ [] }) db

-- uq_outbox_operation_key; the row's creation time is the transaction's
unfoldable pub add_work : CommandType → Command → ℕ → ℕ → ℕ → Tx (Unit {0})
add_work command_type command attempt available_at now db =
    let row : WorkOutbox = record {
      command_type = command_type;
      command = command;
      attempt = attempt;
      available_at = available_at;
      published_at = none;
      created_at = now;
    } in
    insert_unless (any (λ r. key_eq r.command.operation_key command.operation_key) db.outbox)
      (record db { outbox = db.outbox ++ row ∷ [] }) db

-- uq_records_job_identity, for an insertion under `session.begin_nested()`: a violation rolls back
-- to the savepoint, and the answer says whether the row was inserted
unfoldable pub try_add_record : Record → Tx Bool
try_add_record v db =
    if any (λ r. r.job_id == v.job_id && str_eq r.record_identity v.record_identity) db.records
    then ok (false, db)
    else ok (Bool.true, record db { records = db.records ++ v ∷ [] })

-- assignments to the columns of one row
abbrev update_page : ℕ → (Page → Page) → List Page → List Page
update_page id f [] = []
update_page id f (p ∷ ps) = (if p.id == id then f p else p) ∷ update_page id f ps

unfoldable pub modify_page : ℕ → (Page → Page) → Tx (Unit {0})
modify_page id f db = ok (tt, record db { pages = update_page id f db.pages })

abbrev update_run : ℕ → (ValidationRun → ValidationRun) → List ValidationRun → List ValidationRun
update_run id f [] = []
update_run id f (r ∷ rs) = (if r.id == id then f r else r) ∷ update_run id f rs

unfoldable pub modify_run : ℕ → (ValidationRun → ValidationRun) → Tx (Unit {0})
modify_run id f db = ok (tt, record db { runs = update_run id f db.runs })

abbrev pub update_export : ℕ → (ExportJob → ExportJob) → List ExportJob → List ExportJob
update_export id f [] = []
update_export id f (e ∷ es) = (if e.id == id then f e else e) ∷ update_export id f es

unfoldable pub modify_export : ℕ → (ExportJob → ExportJob) → Tx (Unit {0})
modify_export id f db = ok (tt, record db { exports = update_export id f db.exports })
