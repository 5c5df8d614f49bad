-- ===== src/Queries/Expiry.antt =====
-- services.py: what `cleanup_expired_files` removes.
use web_data_extraction_engi.Prelude.{
  ℕ, ◌+◌, ◌-◌, ◌≤◌, ◌≡◌, count_if, String, Bool, List, ◌++◌, length, where_, map, Option,
}
use web_data_extraction_engi.Store.{Db, GeneratedFile, BrowserArtifact}
use web_data_extraction_engi.Queries.Files.{
  has_expired, without_rows, expired_files, expired_artifacts, cleanup_expired_files,
}
use web_data_extraction_engi.Queries.Removal.{live}

-- the number of rows that have expired
abbrev pub expired_count : {A : Type 0} → (A → Option ℕ) → ℕ → List A → ℕ
expired_count expires_at now rows = count_if (λ a. has_expired now (expires_at a)) rows

module _ (file_id : GeneratedFile → ℕ) (artifact_id : BrowserArtifact → ℕ) (deletes : String → Bool)
    (now limit : ℕ) (db : Db) where
  abbrev gone : List GeneratedFile
  gone = expired_files file_id artifact_id now limit db

  abbrev lost : List BrowserArtifact
  lost = expired_artifacts file_id artifact_id now limit db

  abbrev keys : List String
  keys = map (λ f. f.storage_key) gone ++ map (λ a. a.storage_key) lost

  abbrev pub clean_up : Option (ℕ × Db) × List String
  clean_up = cleanup_expired_files file_id artifact_id deletes now limit db

  abbrev cleaned : Db
  cleaned = record db {
    files = without_rows (λ f. f.expires_at) file_id gone db.files;
    artifacts = without_rows (λ a. a.expires_at) artifact_id lost db.artifacts;
  }

  -- what a clean-up that ends says of the number it answers and of the tables it leaves
  pub record Cleaned (n : ℕ) (t : Db) : Type 0 where
    pub bounded : n ≤ limit
    pub removed : length t.files + length t.artifacts + n ≡ length db.files + length db.artifacts
    pub fewer_files :
        expired_count (λ f. f.expires_at) now t.files
        ≡ expired_count (λ f. f.expires_at) now db.files - limit
    pub fewer_artifacts :
        expired_count (λ a. a.expires_at) now t.artifacts
        ≡ expired_count (λ a. a.expires_at) now db.artifacts
          - (limit - expired_count (λ f. f.expires_at) now db.files)
    pub live_files :
        where_ (live (λ f. f.expires_at) file_id now) t.files
        ≡ where_ (live (λ f. f.expires_at) file_id now) db.files
    pub live_artifacts :
        where_ (live (λ a. a.expires_at) artifact_id now) t.artifacts
        ≡ where_ (live (λ a. a.expires_at) artifact_id now) db.artifacts
    pub jobs : t.jobs ≡ db.jobs
    pub records : t.records ≡ db.records
