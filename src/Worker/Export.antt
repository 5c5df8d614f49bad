-- ===== src/Worker/Export.antt =====
-- worker.py: `run_export`. The object store is a list of the files that it holds.
use web_data_extraction_engi.Prelude.{
  ℕ, Bool, true, false, not, List, [], ◌∷◌, ◌++◌, Option, none, some, String, maybe, ltb, str_eq,
  str_in, if◌then◌else◌, where_,
}
use web_data_extraction_engi.Store.{Db, Command, CanonicalPlan, Record}
use web_data_extraction_engi.Store.Tx.{Result, Error, ok, err, export_too_large, unsupported_format}
use web_data_extraction_engi.Service.Columns.{Failure}
use web_data_extraction_engi.Service.Lifecycle.{job_row}
use web_data_extraction_engi.Service.Export.{
  ExportOperation, StoredFile, is_cancelled, claim_export, complete_export, fail_export,
}
use web_data_extraction_engi.Service.Validation.{writer_formats}
use web_data_extraction_engi.Dataset.{Value, CanonicalExportDataset, load_export_dataset}
use web_data_extraction_engi.Worker.{
  WorkerConfig, Answer, done, raised, uncaught, session, retry_or_done,
}
use web_data_extraction_engi.Worker.Errors.{
  storage_error, export_timeout, export_infrastructure, export_serialization,
  export_output_too_large, export_dataset_too_large, export_unsupported,
}

-- the tables and the object store
pub record World : Type 0 where
  pub db : Db
  pub files : List StoredFile

-- a step under the handler's time limit: it ends, raises an exception, or runs out of time
pub data Timed (A : Type 0) : Type 0 where
  ended : A → Timed A
  broke : Timed A
  timed_out : Timed A

-- `store.put(...)`: it answers with a reference, or it raises or runs out of time, and then the store
-- may hold a file all the same
pub data Put : Type 0 where
  stored : StoredFile → Put
  put_broke : Option StoredFile → Put
  put_timed_out : Option StoredFile → Put

-- what the deletions do: the one of a file that `complete_export` refuses, under the time limit, and
-- the one of an `except` clause, which is false when it raises; a deletion that does not end leaves
-- the file
pub record Deletions : Type 0 where
  pub refused : Timed (Unit {0})
  pub clearing : Bool

-- the file that a put left behind
abbrev pub with_left : Option StoredFile → List StoredFile → List StoredFile
with_left none files = files
with_left (some file) files = files ++ file ∷ []

-- `store.delete(reference)`, when it ends
unfoldable pub delete_file : StoredFile → List StoredFile → List StoredFile
delete_file file files = where_ (λ f. not (str_eq f.storage_key file.storage_key)) files

-- the failure that the handlers of `run_export` report for an exception of a service method
abbrev pub failure_of : Error → Failure
failure_of export_too_large = export_dataset_too_large
failure_of unsupported_format = export_unsupported
failure_of _ = export_infrastructure

module _ (w : WorkerConfig) (command : Command) where
  -- the ends of the `except` clauses: `retries` is false for the clause of `TimeoutError`
  abbrev reported : List StoredFile → Answer × Db → Answer × World
  reported files (answer, db) = (answer, record { db = db; files = files })

  abbrev pub answer_of : Bool → Option ℕ → Answer
  answer_of retries retry = if retries then retry_or_done w retry else done

  unfoldable pub report_export_failure : Failure → Bool → ℕ → World → Answer × World
  report_export_failure error retries finish world = reported world.files (
      session (fail_export command error w.export_max_retries finish) world.db
        (λ retry t. (answer_of retries retry, t)))

  -- an `except` clause after the file is stored: a deletion that raises leaves the handler
  unfoldable pub clear_and_report :
      Deletions → StoredFile → Failure → Bool → ℕ → World → Answer × World
  unfolding report_export_failure delete_file
  clear_and_report deletions file error retries finish world =
      if deletions.clearing
      then report_export_failure error retries finish
          (record world { files = delete_file file world.files })
      else (uncaught storage_error, world)

  -- the deletion of a file that `complete_export` refused; the clauses delete it again
  unfoldable pub drop_refused :
      Timed (Unit {0}) → Deletions → StoredFile → ℕ → World → Answer × World
  unfolding clear_and_report delete_file
  drop_refused (ended u) deletions file finish world =
      (done, record world { files = delete_file file world.files })
  drop_refused broke deletions file finish world =
      clear_and_report deletions file export_infrastructure true finish world
  drop_refused timed_out deletions file finish world =
      clear_and_report deletions file export_timeout false finish world

  -- the transaction of `complete_export`, which the time limit may break off before its commit
  unfoldable pub settle_export :
      Deletions
      → ExportOperation
      → StoredFile
      → Bool
      → Result (Bool × Db)
      → ℕ
      → World
      → Answer × World
  unfolding clear_and_report drop_refused
  settle_export deletions op file true result finish world =
      clear_and_report deletions file export_timeout false finish world
  settle_export deletions op file false (ok (true, t)) finish world =
      (done, record world { db = t })
  settle_export deletions op file false (ok (false, t)) finish world =
      drop_refused deletions.refused deletions file finish (record world { db = t })
  settle_export deletions op file false (err e) finish world =
      clear_and_report deletions file (failure_of e) true finish world

  unfoldable pub cancelled_in : ExportOperation → Db → Bool
  cancelled_in op db = maybe (job_row op.job_id db) false is_cancelled

  -- the answer of the object store; `world` is the state before the payload is stored. Where no
  -- reference came back, no clause deletes a file.
  unfoldable pub store_payload :
      Deletions → ExportOperation → Put → (Db → Db) → Bool → ℕ → World → Answer × World
  unfolding settle_export report_export_failure
  store_payload deletions op (stored file) meanwhile late finish world =
      let after : World = record { db = meanwhile world.db; files = world.files ++ file ∷ [] } in
      settle_export deletions op file late (complete_export op file finish after.db) finish after
  store_payload deletions op (put_broke left) meanwhile late finish world =
      report_export_failure export_infrastructure true finish
        (record { db = meanwhile world.db; files = with_left left world.files })
  store_payload deletions op (put_timed_out left) meanwhile late finish world =
      report_export_failure export_timeout false finish
        (record { db = meanwhile world.db; files = with_left left world.files })

  -- the size of the rendered bytes
  unfoldable pub check_payload :
      Deletions
      → ExportOperation
      → Timed ℕ
      → (ℕ → Put)
      → (Db → Db)
      → Bool
      → ℕ
      → World
      → Answer × World
  unfolding store_payload cancelled_in
  check_payload deletions op (ended size) put meanwhile late finish world =
      if ltb w.export_max_bytes size
      then report_export_failure export_output_too_large true finish world
      else if cancelled_in op world.db
      then (done, world)
      else store_payload deletions op (put size) meanwhile late finish world
  check_payload deletions op broke put meanwhile late finish world =
      report_export_failure export_serialization true finish world
  check_payload deletions op timed_out put meanwhile late finish world =
      report_export_failure export_timeout false finish world

  module _ {Number : Type 0} (field_names : CanonicalPlan → List String)
      (payload_fields : Record → List (String × Option (Value Number))) (id_text : ℕ → String)
      (render : CanonicalExportDataset Number → String → Timed ℕ) (put : ℕ → Put)
      (deletions : Deletions) (rendering storing : Db → Db) (late : Bool) where
    unfoldable pub render_dataset :
        ExportOperation → Result (CanonicalExportDataset Number) → ℕ → World → Answer × World
    unfolding check_payload report_export_failure cancelled_in
    render_dataset op (ok dataset) finish world =
        if cancelled_in op world.db
        then (done, world)
        else if not (str_in op.format_name writer_formats)
        then report_export_failure export_unsupported true finish
            (record world { db = rendering world.db })
        else check_payload deletions op (render dataset op.format_name) put storing late finish
            (record world { db = rendering world.db })
    render_dataset op (err e) finish world = report_export_failure (failure_of e) true finish world

    unfoldable pub continue_export :
        Result (Option ExportOperation × Db) → ℕ → World → Answer × World
    unfolding render_dataset
    continue_export (err e) finish world = (raised e, world)
    continue_export (ok (none, t)) finish world = (done, record world { db = t })
    continue_export (ok (some op, t)) finish world =
        render_dataset op
          (load_export_dataset field_names payload_fields id_text op w.export_max_records t) finish
          (record world { db = t })

    -- `rendering` and `storing` are what others commit while the payload is rendered and stored
    unfoldable pub run_export : ℕ → ℕ → World → Answer × World
    unfolding continue_export
    run_export start finish world =
        continue_export (claim_export command w.worker_id w.worker_lease_ms start world.db) finish
          world
