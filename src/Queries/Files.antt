-- ===== src/Queries/Files.antt =====
-- services.py: `files`, `file_for_download` and `cleanup_expired_files`. The identifiers of the rows of
-- files and artifacts are arguments.
use web_data_extraction_engi.Prelude.{
  ℕ, ◌+◌, ◌-◌, Bool, true, false, not, ◌&&◌, ◌||◌, List, [], ◌∷◌, ◌++◌, Option, none, some, String,
  map, length, take, where_, first, any, maybe, is_some, ltb, leb, ◌==◌, if◌then◌else◌,
}
use web_data_extraction_engi.Prelude.Sorting.{sort_by}
use web_data_extraction_engi.Store.{Db, ExportJob, ExportStatus, GeneratedFile, BrowserArtifact}
use web_data_extraction_engi.Store.Tx.{Tx, pure, raise, gets, some_or, ◌>>=◌, not_found}
use web_data_extraction_engi.Store.Jobs.{find_job}
use web_data_extraction_engi.Service.Lifecycle.{get_job, owns}
use web_data_extraction_engi.Service.Export.{export_is, export_row}

-- `expires_at.is_(None) or expires_at > utcnow()`
abbrev pub is_available : ℕ → Option ℕ → Bool
is_available now expires_at = maybe expires_at true (λ t. ltb now t)

-- the completed export of an available file
abbrev pub offered_export : ℕ → Db → GeneratedFile → Option ExportJob
offered_export now db f = maybe (export_row f.export_job_id db) none λ e.
    if export_is e.status ExportStatus.completed && is_available now f.expires_at
    then some e
    else none

pub record FileMetadata : Type 0 where
  pub file_id : ℕ
  pub format : String
  pub media_type : String
  pub byte_size : ℕ
  pub checksum : String
  pub expires_at : Option ℕ

-- the export belongs to a job of a project of the principal
abbrev pub owns_export : ℕ → Db → ExportJob → Bool
owns_export principal_id db e =
    maybe (find_job e.job_id db.jobs) false
      λ job. is_some (first (owns job.project_id principal_id) db.projects)

module _ (file_id : GeneratedFile → ℕ) where
  unfoldable pub file_metadata : GeneratedFile → ExportJob → FileMetadata
  file_metadata f e = record {
    file_id = file_id f;
    format = e.format;
    media_type = f.media_type;
    byte_size = f.byte_size;
    checksum = f.checksum;
    expires_at = f.expires_at;
  }

  -- the answers for these rows, which stand in the order of their creation
  unfoldable pub offered_files : ℕ → ℕ → Db → List GeneratedFile → List FileMetadata
  unfolding file_metadata
  offered_files job_id now db [] = []
  offered_files job_id now db (f ∷ rows) =
      let rest = offered_files job_id now db rows in
      maybe (offered_export now db f) rest
        (λ e. if e.job_id == job_id then file_metadata f e ∷ rest else rest)

  unfoldable pub files : ℕ → ℕ → ℕ → Tx (List FileMetadata)
  unfolding offered_files
  files job_id principal_id now = do
    job ← get_job job_id principal_id
    gets (λ db. offered_files job_id now db db.files)

  -- the file with its export
  unfoldable pub file_for_download : ℕ → ℕ → ℕ → Tx (GeneratedFile × ExportJob)
  file_for_download id principal_id now = do
    row ← gets (λ db. first (λ f. file_id f == id) db.files)
    f ← some_or not_found row
    joined ← gets (λ db. offered_export now db f)
    e ← some_or not_found joined
    owned ← gets (λ db. owns_export principal_id db e)
    if owned then pure (f, e) else raise not_found

-- `expires_at.is_not(None), expires_at <= utcnow()`
abbrev pub has_expired : ℕ → Option ℕ → Bool
has_expired now expires_at = maybe expires_at false (λ t. leb t now)

module _ {A : Type 0} (expires_at : A → Option ℕ) (row_id : A → ℕ) where
  abbrev expiry : A → ℕ
  expiry a = maybe (expires_at a) 0 (λ t. t)

  abbrev pub by_expiry : A → A → Bool
  by_expiry a b = ltb (expiry a) (expiry b) || (expiry a == expiry b && leb (row_id a) (row_id b))

  -- the rows that a clean-up chooses
  unfoldable pub expired_rows : ℕ → ℕ → List A → List A
  expired_rows now limit rows =
      take limit (sort_by by_expiry (where_ (λ a. has_expired now (expires_at a)) rows))

  -- `session.delete(row)` of each of them
  unfoldable pub without_rows : List A → List A → List A
  without_rows removed rows = where_ (λ a. not (any (λ b. row_id b == row_id a) removed)) rows

-- `store.delete(...)` of one key after another, until one raises: whether none does, and the keys
-- that are deleted
unfoldable pub delete_keys : (String → Bool) → List String → Bool × List String
delete_keys deletes [] = (true, [])
delete_keys deletes (key ∷ keys) =
    let rest = delete_keys deletes keys in
    if deletes key then (rest.0, key ∷ rest.1) else (false, [])

module _ (file_id : GeneratedFile → ℕ) (artifact_id : BrowserArtifact → ℕ) where
  abbrev pub expired_files : ℕ → ℕ → Db → List GeneratedFile
  expired_files now limit db = expired_rows (λ f. f.expires_at) file_id now limit db.files

  -- `max(0, limit - len(generated_files))`
  abbrev pub expired_artifacts : ℕ → ℕ → Db → List BrowserArtifact
  expired_artifacts now limit db =
      expired_rows (λ a. a.expires_at) artifact_id now (limit - length (expired_files now limit db))
        db.artifacts

  -- the number of removed rows and the tables, or nothing when the store raises, since the rows are
  -- rolled back then; and the keys that are deleted from the store
  unfoldable pub cleanup_expired_files :
      (String → Bool) → ℕ → ℕ → Db → Option (ℕ × Db) × List String
  unfolding expired_rows without_rows delete_keys
  cleanup_expired_files deletes now limit db =
      let gone = expired_files now limit db in
      let lost = expired_artifacts now limit db in
      let deleted =
        delete_keys deletes (map (λ f. f.storage_key) gone ++ map (λ a. a.storage_key) lost) in
      (
        if deleted.0
            then some (
              length gone + length lost,
              record db {
                files = without_rows (λ f. f.expires_at) file_id gone db.files;
                artifacts = without_rows (λ a. a.expires_at) artifact_id lost db.artifacts;
              },
            )
            else none,
        deleted.1,
      )
