-- ===== src/Tests.antt =====
-- The theorems about runs at concrete inputs; those about parts of the program have child modules.
mod Methods
mod Choices
mod Recoveries
mod Limiter
mod Checks
mod Export
mod Workers
mod Queries
mod Dispatch
use web_data_extraction_engi.Prelude.{
  ℕ, ◌≡◌, ◌⊎◌, inl, inr, refl, true, false, List, [], ◌∷◌, none, some, ◌+◌, ◌≤◌, arith,
}
use web_data_extraction_engi.Domain.{
  JobStatus, queued, planning, extracting, cancelled, failed, browser_initializing, capped_delay,
  retry_delay,
}
use web_data_extraction_engi.Domain.Delays.{retry_delay-bounds}
use web_data_extraction_engi.Store.{Db, Job, ProgressEvent}
use web_data_extraction_engi.Prelude.{◌++◌}
use web_data_extraction_engi.Behaviour.Idempotency.{create_job-retried, create_job-conflict}
use web_data_extraction_engi.Store.Tx.{
  Tx, ok, err, idempotency_conflict, ◌>>=◌, some_or, guarded, on_conflict,
}
use web_data_extraction_engi.Store.Jobs.{find_job, update_job, modify_job, keep_id}
use web_data_extraction_engi.Store.Events.{append_event}
use web_data_extraction_engi.Store.Tables.{add_source, add_job, add_key, add_work}
use web_data_extraction_engi.Domain.Graph.{is_terminal}
use web_data_extraction_engi.Service.Columns.{enter, request_cancel}
use web_data_extraction_engi.Service.Lifecycle.{
  assert_project_access, cancel, get_job, request_and_cancel, transition, enter_state,
}
use web_data_extraction_engi.Service.Creation.{
  JobCreateRequest, JobAccepted, accepted, new_job, create_job, submit, insert_job, insert_row,
  ensure_source, add_planning_work,
}
use web_data_extraction_engi.Invariant.Job.{JobStep}
use web_data_extraction_engi.Invariant.Tables.{Valid}
use web_data_extraction_engi.System.{
  run, perform, commit, initial, on_create, on_cancel, on_claim_planning,
}
use web_data_extraction_engi.System.Invariants.{run-Valid, run-JobStep, run-terminal, run-events}
use web_data_extraction_engi.Demo.{externals, projects, request, command}

-- the first job and its row after its cancellation
abbrev stopped : Job
stopped = keep_id (enter cancelled 300) (keep_id (request_cancel 300 7) (new_job 5 3 request 9 200))

created :
    find_job 5 (run externals ((200, on_create request 7 none 5 3 9) ∷ []) (initial projects)).jobs
    ≡ some (new_job 5 3 request 9 200)
unfolding run perform commit create_job submit assert_project_access insert_job insert_row
    ensure_source add_source add_job append_event guarded on_conflict add_planning_work add_work
    some_or find_job new_job ◌>>=◌
created = refl

created_and_stopped :
    find_job 5
      (run externals
        ((200, on_create request 7 none 5 3 9) ∷ (300, on_cancel 5 7 9) ∷ [])
        (initial projects)).jobs
    ≡ some stopped
unfolding run perform commit create_job submit assert_project_access insert_job insert_row
    ensure_source add_source add_job append_event guarded on_conflict add_planning_work add_work
    some_or find_job new_job cancel get_job request_and_cancel transition enter_state modify_job
    update_job enter request_cancel ◌>>=◌
created_and_stopped = refl

stopped_ends : is_terminal stopped.status ≡ true
unfolding enter
stopped_ends = refl

run-Valid_example : Valid (
    run externals
      ((200, on_create request 7 (some "key") 5 3 9)
        ∷ (300, on_claim_planning command "w" 1_000)
        ∷ [])
      (initial projects))
run-Valid_example =
    run-Valid externals
      ((200, on_create request 7 (some "key") 5 3 9)
        ∷ (300, on_claim_planning command "w" 1_000)
        ∷ [])
      projects

run-events_example :
    (extra : List ProgressEvent) × ((run externals
        ((300, on_cancel 5 7 9) ∷ [])
        (run externals ((200, on_create request 7 none 5 3 9) ∷ []) (initial projects))).events
      ≡ (run externals ((200, on_create request 7 none 5 3 9) ∷ []) (initial projects)).events
        ++ extra)
run-events_example =
    run-events externals ((200, on_create request 7 none 5 3 9) ∷ []) ((300, on_cancel 5 7 9) ∷ [])
      projects

run-JobStep_example :
    (k : Job) × ((find_job 5
          (run externals
            ((300, on_cancel 5 7 9) ∷ [])
            (run externals ((200, on_create request 7 none 5 3 9) ∷ []) (initial projects))).jobs
        ≡ some k)
      × JobStep (new_job 5 3 request 9 200) k)
run-JobStep_example =
    run-JobStep externals ((200, on_create request 7 none 5 3 9) ∷ []) ((300, on_cancel 5 7 9) ∷ [])
      projects 5 (new_job 5 3 request 9 200) created

run-terminal_example :
    (k : Job) × ((find_job 5
          (run externals ((400, on_claim_planning command "w" 1_000) ∷ []) (
            run externals
              ((200, on_create request 7 none 5 3 9) ∷ (300, on_cancel 5 7 9) ∷ [])
              (initial projects))).jobs
        ≡ some k)
      × (k.status ≡ stopped.status))
run-terminal_example =
    run-terminal externals ((200, on_create request 7 none 5 3 9) ∷ (300, on_cancel 5 7 9) ∷ [])
      ((400, on_claim_planning command "w" 1_000) ∷ []) projects 5 stopped created_and_stopped
      stopped_ends

-- the tables after the first request with a key
abbrev first_request : Tx JobAccepted
first_request =
    create_job externals.validate_initial_url externals.request_fingerprint request 7 (some "key") 5
      3 9 200

abbrev requested : Db
requested = commit first_request (initial projects)

first_accepted :
    first_request (initial projects) ≡ ok (accepted (new_job 5 3 request 9 200), requested)
unfolding commit create_job submit assert_project_access insert_job insert_row ensure_source
    add_source add_job append_event guarded on_conflict add_planning_work add_work add_key some_or
    find_job new_job ◌>>=◌
first_accepted = refl

create_job-retried_example :
    create_job externals.validate_initial_url externals.request_fingerprint request 7
      (some "key")
      6
      4
      10
      300
      requested
    ≡ ok (accepted (new_job 5 3 request 9 200), requested)
create_job-retried_example =
    create_job-retried externals.validate_initial_url externals.request_fingerprint request 7 "key"
      refl 5 3 9 200 (initial projects) requested (accepted (new_job 5 3 request 9 200))
      first_accepted 6 4 10 300

-- another task, and so another fingerprint
abbrev other_request : JobCreateRequest
other_request = record request { task = "collect the prices now" }

create_job-conflict_example :
    create_job externals.validate_initial_url externals.request_fingerprint other_request 7
      (some "key")
      6
      4
      10
      300
      requested
    ≡ err idempotency_conflict
create_job-conflict_example =
    create_job-conflict externals.validate_initial_url externals.request_fingerprint request 7 "key"
      refl 5 3 9 200 (initial projects) requested (accepted (new_job 5 3 request 9 200))
      first_accepted other_request refl refl 6 4 10 300
