-- ===== src/Tests/Queries.antt =====
-- The theorems about the queries at concrete inputs.
use web_data_extraction_engi.Prelude.{
  Bool, ℕ, suc, ◌≡◌, refl, true, List, [], ◌∷◌, ◌++◌, Option, some, none, String, map, take, arith,
  maybe,
}
use web_data_extraction_engi.Prelude.Sorting.{sort_by}
use web_data_extraction_engi.Domain.{extracting}
use web_data_extraction_engi.Store.{Db, Job, Record, GeneratedFile, BrowserArtifact}
use web_data_extraction_engi.Store.Events.{events_of}
use web_data_extraction_engi.Store.Jobs.{find_job}
use web_data_extraction_engi.Dataset.{Value, text}
use web_data_extraction_engi.System.{run, initial, on_create, on_cancel}
use web_data_extraction_engi.Queries.{
  inventory_item, by_depth, job_pages, pages, result_item, completed_run, by_creation, job_records,
  results, events_after,
}
use web_data_extraction_engi.Queries.Pagination.{collect, page_items, result_items, pages-collect}
use web_data_extraction_engi.Queries.Resuming.{events_after-resumes}
use web_data_extraction_engi.Demo.{externals, projects, request, job_in, store_of}

abbrev row : ℕ → Record
row n = record { id = n; job_id = 5; page_id = 1; record_identity = "r"; plan_version = 1 }

abbrev owned : Job
owned = job_in extracting 1 none

-- three records, which the second page of two has the last of
abbrev db : Db
db = record (store_of owned) { records = row 3 ∷ row 2 ∷ row 4 ∷ [] }

abbrev fields : Record → List (String × Option (Value ℕ))
fields r = ("name", some (text "lamp")) ∷ ("price", none) ∷ []

abbrev created : Record → ℕ
created r = 100

pages-collect_example :
    (collect (λ page. page_items (pages 5 7 page 2 db)) 2
      ≡ map inventory_item (sort_by by_depth (job_pages 5 db)))
    × (collect (λ page. result_items (results fields created 5 7 page 2 db)) 2
        ≡ map
            (result_item fields created (completed_run 5 db) db)
            (sort_by (by_creation fields created) (job_records fields created 5 db)))
unfolding find_job
pages-collect_example =
    pages-collect fields created 5 7 2 db owned 2 refl (omega arith) (omega arith)

events_after-resumes_example :
    take 1 (
        events_of 5
          (run externals
            ((200, on_create request 7 none 5 3 9) ∷ (300, on_cancel 5 7 9) ∷ [])
            (initial projects)).events)
      ++ events_after 5 1 (
          run externals
            ((200, on_create request 7 none 5 3 9) ∷ (300, on_cancel 5 7 9) ∷ [])
            (initial projects))
    ≡ events_of 5
        (run externals
          ((200, on_create request 7 none 5 3 9) ∷ (300, on_cancel 5 7 9) ∷ [])
          (initial projects)).events
events_after-resumes_example =
    events_after-resumes externals
      ((200, on_create request 7 none 5 3 9) ∷ (300, on_cancel 5 7 9) ∷ []) projects 5 1

abbrev old_file : GeneratedFile
old_file = record {
  export_job_id = 40;
  storage_key = "k";
  media_type = "text/csv";
  byte_size = 3;
  checksum = "c";
  expires_at = some 50;
}

abbrev old_artifact : BrowserArtifact
old_artifact = record {
  job_id = 5;
  page_id = 1;
  artifact_type = "screenshot";
  storage_key = "s";
  expires_at = some 60;
}

-- an identifier of a row: in this store, rows that expire at one time are one row
abbrev file_id : GeneratedFile → ℕ
file_id f = maybe f.expires_at 0 (λ t. suc t)

abbrev artifact_id : BrowserArtifact → ℕ
artifact_id a = maybe a.expires_at 0 (λ t. suc t)

-- an expired file and an expired artifact
abbrev stored : Db
stored = record db { files = old_file ∷ []; artifacts = old_artifact ∷ [] }

-- a store that deletes every key
abbrev deletes : String → Bool
deletes key = true
