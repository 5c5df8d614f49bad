-- ===== src/Behaviour/Transitions.antt =====
-- When a change of status commits, and what it writes.
use web_data_extraction_engi.Prelude.{
  ℕ, ◌+◌, ◌≡◌, ◌⊎◌, refl, true, false, ◌&&◌, [], ◌∷◌, ◌++◌, some, maybe, ==_iff, Bool-cases,
  Option-cases, inl, inr,
}
use web_data_extraction_engi.Domain.{JobStatus, is_allowed, status_eq, event_for_transition}
use web_data_extraction_engi.Domain.Graph.{status_eq-eq, is_allowed-live, is_terminal}
use web_data_extraction_engi.Store.{Db, Job, ProgressEvent}
use web_data_extraction_engi.Store.Tx.{ok, err, ◌>>=◌, invalid_transition}
use web_data_extraction_engi.Store.Jobs.{find_job, update_job, modify_job, keep_id}
use web_data_extraction_engi.Store.Events.{append_event, events_of, max_sequence}
use web_data_extraction_engi.Service.Columns.{enter}
use web_data_extraction_engi.Service.Lifecycle.{transition, enter_state}
use web_data_extraction_engi.Behaviour.Inversion.{ok_unique, find_job-updated}

-- the event that a change of status appends
abbrev pub change_event : Job → ℕ → JobStatus → JobStatus → ℕ → ℕ → Db → ProgressEvent
change_event job id expected target correlation_id now s = record {
  job_id = id;
  sequence_no = max_sequence (events_of id s.events) + 1;
  event_type = event_for_transition expected target;
  stage = target;
  percent = some (enter target now job).progress_percent;
  correlation_id = correlation_id;
}

-- the tables after a change of status of `job`
abbrev pub changed : Job → ℕ → JobStatus → JobStatus → ℕ → ℕ → Db → Db
changed job id expected target correlation_id now s = record s {
  jobs = update_job id (enter target now) s.jobs;
  events = s.events ++ change_event job id expected target correlation_id now s ∷ [];
}

module _ (id : ℕ) (expected target : JobStatus) (correlation_id now : ℕ) (s : Db) where
  enter_state-changed :
      (job : Job)
      → enter_state job id expected target correlation_id now s
        ≡ ok (tt, changed job id expected target correlation_id now s)
  unfolding enter_state ◌>>=◌ modify_job append_event
  enter_state-changed job = refl

  -- the two outcomes of a change of status
  pub transition_lem :
      ((transition id expected target correlation_id now s ≡ err invalid_transition)
        × ((is_allowed expected target
              && maybe (find_job id s.jobs) false (λ job. status_eq job.status expected))
            ≡ false))
      ⊎ ((job : Job) × ((find_job id s.jobs ≡ some job)
            × (is_allowed expected target ≡ true)
            × (job.status ≡ expected)
            × (transition id expected target correlation_id now s
                ≡ ok (tt, changed job id expected target correlation_id now s))))
  unfolding transition ◌>>=◌
  transition_lem = elim (Bool-cases (is_allowed expected target)) [
    | inr e ↦ inl (rw e, rw e)
    | inl a ↦ elim (Option-cases (find_job id s.jobs)) [
      | inl e ↦ inl (rw (a, e), rw (a, e))
      | inr (job, e) ↦ elim (Bool-cases (status_eq job.status expected)) [
        | inr n ↦ inl (rw (a, e, n), rw (a, e, n))
        | inl y ↦ inr (
          job,
          (
            e,
            a,
            status_eq-eq job.status expected y,
            rw (a, e, y, live job a y) (enter_state-changed job),
          ),
        )
      ]
    ]
  ]
    where
      live :
          (job : Job)
          → is_allowed expected target ≡ true
          → status_eq job.status expected ≡ true
          → is_terminal job.status ≡ false
      live job a y = rw (status_eq-eq job.status expected y) (is_allowed-live expected target a)

  -- what a committed change of status says
  pub transition-ok :
      (u : Unit {0}) (t : Db)
      → transition id expected target correlation_id now s ≡ ok (u, t)
      → (job : Job) × ((find_job id s.jobs ≡ some job)
          × (job.status ≡ expected)
          × (t ≡ changed job id expected target correlation_id now s))
  transition-ok u t h = elim transition_lem [
    | inl (e, n) ↦ cc (e, h)
    | inr (job, (f, a, p, e)) ↦ (job, (f, p, (ok_unique _ _ _ _ _ h e).1))
  ]

  pub transition-commits :
      (job : Job)
      → find_job id s.jobs ≡ some job
      → job.status ≡ expected
      → is_allowed expected target ≡ true
      → transition id expected target correlation_id now s
        ≡ ok (tt, changed job id expected target correlation_id now s)
  unfolding transition ◌>>=◌ enter
  transition-commits job f p a =
      let live : is_terminal expected ≡ false = is_allowed-live expected target a in
      let same : status_eq expected expected ≡ true = (==_iff _ _).1 refl in
      rw (a, f, p, live, same) (enter_state-changed job)

-- the row after a change of status
pub find_job-changed :
    (id : ℕ) (expected target : JobStatus) (correlation_id now : ℕ) (s : Db) (job : Job)
    → find_job id s.jobs ≡ some job
    → find_job id (changed job id expected target correlation_id now s).jobs
      ≡ some (keep_id (enter target now) job)
find_job-changed id expected target correlation_id now s job e =
    find_job-updated id (enter target now) s.jobs job e
