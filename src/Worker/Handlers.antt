-- ===== src/Worker/Handlers.antt =====
-- worker.py: `WorkerSettings.functions`, the handlers of all commands together.
pub mod Calls
pub mod Phases
pub mod Browsing
pub mod Refinement
use web_data_extraction_engi.Prelude.{ℕ, Bool, List, Option, String}
use web_data_extraction_engi.Store.{
  Db, Command, CommandType, CanonicalPlan, Record, run_planning, run_browser_capture, run_discovery,
  run_extraction, run_validation, run_export,
}
use web_data_extraction_engi.Service.Browser.{BrowserOperationResult}
use web_data_extraction_engi.Service.Extraction.{ExtractionOperation, ExtractionResult}
use web_data_extraction_engi.Service.Validation.{ValidationOperation, Verdict}
use web_data_extraction_engi.Service.Export.{StoredFile}
use web_data_extraction_engi.Service.Recovery.{recover_expired_leases}
use web_data_extraction_engi.System.{Externals, Call, run}
use web_data_extraction_engi.Dataset.{Value, CanonicalExportDataset}
use web_data_extraction_engi.Worker.{WorkerConfig, Answer}
use web_data_extraction_engi.Worker.Planning.{Planner}
use web_data_extraction_engi.Worker.Planning
use web_data_extraction_engi.Worker.Pages.{CaptureRequest, Capture, DocumentCapture}
use web_data_extraction_engi.Worker.Pages
use web_data_extraction_engi.Worker.Checking
use web_data_extraction_engi.Worker.Export.{World, Timed, Put, Deletions}
use web_data_extraction_engi.Worker.Export

-- the worker's context `ctx`, and the readers of what the model's rows leave out
pub record Engines (Document Number : Type 0) : Type 0 where
  pub planner : Planner
  pub capture : CaptureRequest → Capture BrowserOperationResult
  pub capture_document : CaptureRequest → Capture (DocumentCapture Document)
  pub extract : ExtractionOperation → String → Document → ExtractionResult
  pub validate : ValidationOperation → Record → Verdict
  pub field_names : CanonicalPlan → List String
  pub payload_fields : Record → List (String × Option (Value Number))
  pub id_text : ℕ → String
  pub render : CanonicalExportDataset Number → String → Timed ℕ
  pub put : ℕ → Put
  pub deletions : Deletions

-- One delivery: the UUIDs that are drawn, the fingerprint of a validation's request, what others
-- call while an engine works and while a file is stored, and whether the time limit of an export
-- breaks its last transaction off.
pub record Delivery : Type 0 where
  pub page_id : ℕ
  pub run_id : ℕ
  pub ids : ℕ → ℕ
  pub request_key : String
  pub others : List (ℕ × Call)
  pub later : List (ℕ × Call)
  pub late : Bool
  pub start : ℕ
  pub finish : ℕ

abbrev pub on_tables : World → Answer × Db → Answer × World
on_tables world (answer, db) = (answer, record world { db = db })

module _ {Document Number : Type 0} (w : WorkerConfig) (x : Externals)
    (engines : Engines Document Number) (d : Delivery) (command : Command) where
  -- the handler that the queue calls for a command type
  unfoldable pub handle : CommandType → World → Answer × World
  handle run_planning world =
      on_tables world
        (Planning.run_planning w engines.planner command (run x d.others) d.start d.finish world.db)
  handle run_browser_capture world = on_tables world (
      Pages.run_browser_capture w command engines.capture (run x d.others) d.page_id d.start
        d.finish world.db)
  handle run_discovery world = on_tables world (
      Pages.run_discovery w command x.rules x.settings engines.capture (run x d.others) d.ids
        d.start d.finish world.db)
  handle run_extraction world = on_tables world (
      Pages.run_extraction w command engines.extract engines.capture_document (run x d.others) d.ids
        d.run_id d.start d.finish world.db)
  handle run_validation world = on_tables world (
      Checking.run_validation w command engines.validate (run x d.others) d.request_key d.ids
        d.start d.finish world.db)
  handle run_export world =
      Export.run_export w command engines.field_names engines.payload_fields engines.id_text
        engines.render engines.put engines.deletions (run x d.others) (run x d.later) d.late d.start
        d.finish world
