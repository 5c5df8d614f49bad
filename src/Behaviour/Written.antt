-- ===== src/Behaviour/Written.antt =====
-- What a change of status writes, column by column.
use web_data_extraction_engi.Prelude.{
  ℕ, ◌+◌, ◌≡◌, true, false, [], ◌∷◌, ◌++◌, length, none, some, min, ◌==◌, String,
}
use web_data_extraction_engi.Domain.{
  JobStatus, planning, browser_initializing, discovering, completed, failed, cancelled, status_eq,
}
use web_data_extraction_engi.Domain.Graph.{is_terminal}
use web_data_extraction_engi.Store.{Db, Job, ProgressEvent}
use web_data_extraction_engi.Store.Jobs.{find_job}
use web_data_extraction_engi.Store.Events.{events_of}

-- the name of the event of an allowed change, which depends on the new status alone
abbrev pub name_of : JobStatus → String
name_of planning = "planning_started"
name_of browser_initializing = "planning_completed"
name_of discovering = "discovery_started"
name_of completed = "job_completed"
name_of failed = "job_failed"
name_of cancelled = "job_cancelled"
name_of _ = "state_transitioned"

-- the row before and after a change of status at a time
pub record Moved (target : JobStatus) (now : ℕ) (j k : Job) : Type 0 where
  pub status : k.status ≡ target
  pub status_version : k.status_version ≡ j.status_version + 1
  pub updated_at : k.updated_at ≡ now
  pub ends : is_terminal target ≡ true → k.completed_at ≡ some now
  pub goes_on : is_terminal target ≡ false → k.completed_at ≡ j.completed_at
  pub starts : target ≡ planning → j.started_at ≡ none → k.started_at ≡ some now
  pub capped : target ≡ cancelled → k.progress_percent ≡ min j.progress_percent 99
  pub progress : status_eq target cancelled ≡ false → k.progress_percent ≡ j.progress_percent
  pub attempt : k.attempt ≡ j.attempt
  pub lease_owner : k.lease_owner ≡ j.lease_owner
  pub lease_expires_at : k.lease_expires_at ≡ j.lease_expires_at
  pub cancel_requested_at : k.cancel_requested_at ≡ j.cancel_requested_at
  pub counters :
      (k.pages_discovered ≡ j.pages_discovered)
      × (k.pages_processed ≡ j.pages_processed)
      × (k.records_found ≡ j.records_found)

module _ (id : ℕ) (expected target : JobStatus) (correlation_id now : ℕ) (s : Db) where
  -- what a change of status makes of the tables
  pub record Written (job : Job) (t : Db) : Type 0 where
    pub row : (k : Job) × (find_job id t.jobs ≡ some k) × Moved target now job k
    pub others : (i : ℕ) → (id == i) ≡ false → find_job i t.jobs ≡ find_job i s.jobs
    pub event :
        (e : ProgressEvent) × (t.events ≡ s.events ++ e ∷ [])
        × (e.job_id ≡ id)
        × (e.sequence_no ≡ length (events_of id s.events) + 1)
        × (e.event_type ≡ name_of target)
        × (e.stage ≡ target)
        × ((k : Job) × (find_job id t.jobs ≡ some k) × (e.percent ≡ some k.progress_percent))
    pub work : t.outbox ≡ s.outbox
    pub exports : t.exports ≡ s.exports
    pub records : t.records ≡ s.records
