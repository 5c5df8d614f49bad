-- ===== src/Worker/Handlers/Refinement.antt =====
-- The handlers of worker.py and the service: the calls by which a handler changes the tables.
use web_data_extraction_engi.Prelude.{◌≡◌}
use web_data_extraction_engi.Store.{
  Command, run_planning, run_browser_capture, run_discovery, run_extraction, run_validation,
}
use web_data_extraction_engi.System.{Externals, run}
use web_data_extraction_engi.Worker.{WorkerConfig}
use web_data_extraction_engi.Worker.Export.{World}
use web_data_extraction_engi.Worker.Handlers.{Engines, Delivery, handle}
use web_data_extraction_engi.Worker.Handlers.Phases.{
  planning_calls, validation_calls, run_planning-calls, run_validation-calls,
}
use web_data_extraction_engi.Worker.Handlers.Browsing.{
  capture_calls, discovery_calls, extraction_calls, run_browser_capture-calls, run_discovery-calls,
  run_extraction-calls,
}

-- For the commands of the first five phases, whatever the engines answer and whatever calls others
-- make meanwhile: the tables that the handler leaves are those of exactly this sequence of calls of the
-- service. First the claim of the phase; when it grants no operation, nothing more. Otherwise the calls
-- of the others, and then: the completion of the phase with the engine's answer to the operation that
-- was granted, or the failure of the phase with the engine's error; nothing for an exception of the
-- browser that is not an engine error; the failure of the extraction for a missing document; and for a
-- validation that raises, its failure. The record limit of the calls is the worker's.
pub handle-calls :
    {Document Number : Type 0} (w : WorkerConfig) (x : Externals)
    (engines : Engines Document Number) (d : Delivery) (command : Command) (world : World)
    → x.server_max_records ≡ w.extraction_max_records
    → ((handle w x engines d command run_planning world).1.db
        ≡ run x
            (planning_calls x w d.others d.start d.finish command engines.planner world.db)
            world.db)
      × ((handle w x engines d command run_browser_capture world).1.db
          ≡ run x
              (capture_calls x w d.others d.start d.finish command engines.capture d.page_id
                world.db)
              world.db)
      × ((handle w x engines d command run_discovery world).1.db
          ≡ run x
              (discovery_calls x w d.others d.start d.finish command engines.capture d.ids world.db)
              world.db)
      × ((handle w x engines d command run_extraction world).1.db
          ≡ run x
              (extraction_calls x w d.others d.start d.finish command engines.extract
                engines.capture_document d.ids d.run_id world.db)
              world.db)
      × ((handle w x engines d command run_validation world).1.db
          ≡ run x
              (validation_calls x w d.others d.start d.finish command engines.validate d.request_key
                d.ids world.db)
              world.db)
unfolding handle
handle-calls w x engines d command world same_limit = (
  run_planning-calls x w d.others d.start d.finish command engines.planner world.db,
  run_browser_capture-calls x w d.others d.start d.finish command engines.capture d.page_id
      world.db,
  run_discovery-calls x w d.others d.start d.finish command engines.capture d.ids world.db,
  run_extraction-calls x w d.others d.start d.finish command engines.extract same_limit
      engines.capture_document d.ids d.run_id world.db,
  run_validation-calls x w d.others d.start d.finish command engines.validate d.request_key d.ids
      world.db,
)
