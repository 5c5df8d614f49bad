-- ===== src/Tests/Methods.antt =====
-- The theorems about single methods at concrete inputs.
use web_data_extraction_engi.Prelude.{
  ℕ, ◌≡◌, ◌⊎◌, ◌||◌, ◌+◌, ◌≤◌, ◌<◌, ◌++◌, inr, refl, true, false, [], ◌∷◌, none, some, String,
  arith,
}
use web_data_extraction_engi.Domain.{
  planning, completed, cancelled, failed, browser_initializing, capped_delay, retry_delay,
  status_eq,
}
use web_data_extraction_engi.Domain.Graph.{is_terminal}
use web_data_extraction_engi.Domain.Delays.{retry_delay-bounds}
use web_data_extraction_engi.Store.{Db, Job, CanonicalPlan}
use web_data_extraction_engi.Store.Tx.{ok, err, invalid_transition}
use web_data_extraction_engi.Store.Jobs.{find_job}
use web_data_extraction_engi.Service.Lifecycle.{transition, enter_state, cancel}
use web_data_extraction_engi.Service.Planning.{PlanningOperation, claim_planning, complete_planning}
use web_data_extraction_engi.Service.Export.{complete_export}
use web_data_extraction_engi.Behaviour.Written.{Written}
use web_data_extraction_engi.Behaviour.Cancel.{cancel_lem}
use web_data_extraction_engi.Behaviour.Planning.{complete_planning-once, planned, browser_work}
use web_data_extraction_engi.Behaviour.Leases.{claim_planning-exclusive}
use web_data_extraction_engi.Domain.{exporting}
use web_data_extraction_engi.Store.{ExportStatus}
use web_data_extraction_engi.Store.Tx.{◌>>=◌}
use web_data_extraction_engi.Store.Jobs.{modify_job, update_job}
use web_data_extraction_engi.Store.Events.{append_event}
use web_data_extraction_engi.Store.Tables.{add_file, modify_export}
use web_data_extraction_engi.Service.Columns.{release_lease, complete_progress}
use web_data_extraction_engi.Service.Validation.{writer_for}
use web_data_extraction_engi.Service.Export.{complete_job, finish_export}
use web_data_extraction_engi.System.{commit}
use web_data_extraction_engi.Behaviour.Completion.{complete_export-completes, Outcome}
use web_data_extraction_engi.Demo.{job_in, store_of, source, command, plan, export, file}
use web_data_extraction_engi.Demo.{no_jitter, in_planning}

retry_delay-bounds_example :
    (1_000 ≤ capped_delay 4)
    × (capped_delay 4 ≤ retry_delay no_jitter 4)
    × (retry_delay no_jitter 4 ≤ capped_delay 4 + 1_000)
    × (retry_delay no_jitter 4 ≤ 61_000)
    × (capped_delay 4 ≤ capped_delay (4 + 1))
retry_delay-bounds_example = retry_delay-bounds no_jitter 4 (λ high. omega arith)

cancel_lem_example :
    ((status_eq planning completed || status_eq planning failed) ≡ true)
      × (cancel 5 7 9 300 (store_of (job_in planning 0 none)) ≡ err invalid_transition)
    ⊎ ((planning ≡ cancelled)
          × (cancel 5 7 9 300 (store_of (job_in planning 0 none))
              ≡ ok (
                record { job_id = 5; status = cancelled; cancelled_at = none },
                store_of (job_in planning 0 none),
              ))
        ⊎ (is_terminal planning ≡ false)
          × ((t : Db) × ((cancel 5 7 9 300 (store_of (job_in planning 0 none))
                  ≡ ok (record { job_id = 5; status = cancelled; cancelled_at = some 300 }, t))
                × ((k : Job) × ((find_job 5 t.jobs ≡ some k)
                      × (k.status ≡ cancelled)
                      × (k.cancel_requested_at ≡ some 300)
                      × (k.cancelled_by ≡ some 7))))))
unfolding find_job
cancel_lem_example =
    cancel_lem 5 7 9 300 (store_of (job_in planning 0 none)) (job_in planning 0 none) refl refl

complete_planning-once_example :
    (t : Db) × ((complete_planning command plan "h" "p" "m" 300 in_planning ≡ ok (true, t))
      × (t.plans ≡ [] ++ planned command plan "h" "p" "m" 300 in_planning ∷ [])
      × (t.outbox ≡ [] ++ browser_work (job_in planning 0 (some 250)) command 300 ∷ [])
      × ((k : Job) × ((find_job 5 t.jobs ≡ some k) × (k.status ≡ browser_initializing)))
      × ((plan' : CanonicalPlan) (hash' provider' model' : String) (now' : ℕ)
          → complete_planning command plan' hash' provider' model' now' t ≡ ok (false, t)))
unfolding find_job
complete_planning-once_example =
    complete_planning-once command plan "h" "p" "m" 300 in_planning (job_in planning 0 (some 250))
      refl refl refl refl refl

claim_planning-exclusive_example :
    (op : PlanningOperation) × ((t : Db) × ((claim_planning command "w" 1_000 300 in_planning
          ≡ ok (some op, t))
        × ((other : String) (other_ms later : ℕ)
            → later < 1_300
            → claim_planning command other other_ms later t ≡ ok (none, t))))
unfolding find_job
claim_planning-exclusive_example =
    claim_planning-exclusive command "w" 1_000 300 in_planning (job_in planning 0 (some 250)) source
      refl (inr (refl, refl)) refl refl

-- a job with one export that is running
abbrev exporting_store : Db
exporting_store = record (store_of (job_in exporting 0 (some 250))) {
  exports =
      record {
        id = 40;
        job_id = 5;
        validation_run_id = 30;
        format = "csv";
        request_key = "k";
        options = export.options;
        status = ExportStatus.running;
        error_code = none;
        error_message = none;
        attempt = 1;
        started_at = some 200;
        completed_at = none;
      }
      ∷ [];
}

complete_export-completes_example :
    ((job : Job) × ((find_job 5 exporting_store.jobs ≡ some job) × (job.status ≡ exporting)))
    × Outcome 5 (commit (complete_export export file 300) exporting_store)
unfolding commit complete_export complete_job transition enter_state writer_for add_file
    modify_export modify_job append_event find_job update_job release_lease complete_progress
    finish_export ◌>>=◌
complete_export-completes_example =
    complete_export-completes export file 300 exporting_store
      (commit (complete_export export file 300) exporting_store) refl
