-- ===== src/Behaviour/Limits.antt =====
-- The limits on the pages and on the records of a job.
use web_data_extraction_engi.Prelude.{
  ℕ, ◌+◌, ◌≡◌, Bool, List, [], ◌∷◌, ◌++◌, none, String, length, count_if, if◌then◌else◌, ◌==◌,
  arith,
}
use web_data_extraction_engi.Store.{Db, Record, ProgressEvent}
use web_data_extraction_engi.Store.Events.{events_of, max_sequence}
use web_data_extraction_engi.Domain.{extracting}
use web_data_extraction_engi.Service.Extraction.{ExtractionOperation}

-- the number of the job's records
abbrev pub record_count : ℕ → Db → ℕ
record_count job_id db = count_if (λ r. r.job_id == job_id) db.records

pub count_if-append :
    {A : Type 0} (p : A → Bool) (xs : List A) (y : A)
    → count_if p (xs ++ y ∷ []) ≡ count_if p xs + (if p y then 1 else 0)
count_if-append p [] y = ground arith
count_if-append p (x ∷ xs) y = ground (arith, count_if-append p xs y)

module _ (op : ExtractionOperation) (ids : ℕ → ℕ) where
  -- the tables after a duplicate is reported
  reported : Db → Db
  reported s =
      let event : ProgressEvent = record {
        job_id = op.job_id;
        sequence_no = max_sequence (events_of op.job_id s.events) + 1;
        event_type = "record_duplicate";
        stage = extracting;
        percent = none;
        correlation_id = op.correlation_id;
      } in
      record s { events = s.events ++ event ∷ [] }

  row_of : String → Db → Record
  row_of identity s = record {
    id = ids (length s.records);
    job_id = op.job_id;
    page_id = op.page_id;
    record_identity = identity;
    plan_version = op.plan.plan_version;
  }
