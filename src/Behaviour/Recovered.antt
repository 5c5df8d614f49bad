-- ===== src/Behaviour/Recovered.antt =====
-- What the recovery of an expired lease does to a job.
use web_data_extraction_engi.Prelude.{
  ℕ, ◌+◌, ◌≡◌, ◌⊎◌, refl, true, false, [], ◌∷◌, ◌++◌, none, some, String, any, ltb, inl, inr,
}
use web_data_extraction_engi.Domain.{planning, extracting, validating, retry_delay}
use web_data_extraction_engi.Store.{Db, Job, Command, WorkOutbox, run_planning, phase_key}
use web_data_extraction_engi.Store.Tx.{ok, err, ◌>>=◌, integrity_error, invalid_transition}
use web_data_extraction_engi.Store.Jobs.{find_job, update_job, modify_job, keep_id}
use web_data_extraction_engi.Store.Tables.{add_work, key_eq}
use web_data_extraction_engi.Service.Columns.{expire_lease}
use web_data_extraction_engi.Service.Planning.{claim_planning}
use web_data_extraction_engi.Service.Recovery.{is_expired, requeue, resume, retry_job, recover_job}
use web_data_extraction_engi.Behaviour.Inversion.{find_job-updated}

module _ (uniform : ℕ → ℕ) (now id : ℕ) (s : Db) (job : Job) (found : find_job id s.jobs ≡ some job)
    (lost : is_expired now job ≡ true) (kept : job.cancel_requested_at ≡ none) where
  -- A job in planning that has never failed cannot be recovered while the outbox keeps the row of its
  -- creation: the new row would have the same operation key, so the call raises an integrity error.
  pub recover_job-collision :
      job.status ≡ planning
      → job.attempt ≡ 0
      → ltb job.max_attempts 1 ≡ false
      → any (λ r. key_eq r.command.operation_key (phase_key job.id "planning" 1)) s.outbox ≡ true
      → recover_job uniform now id s ≡ err integrity_error
  unfolding recover_job retry_job resume requeue modify_job add_work expire_lease ◌>>=◌
  recover_job-collision p a b c = rw (found, lost, kept, a, b, p, c)

  -- the outbox row of a job that starts again with planning
  replanned : WorkOutbox
  replanned = record {
    command_type = run_planning;
    command = record {
      job_id = job.id;
      project_id = job.project_id;
      correlation_id = job.correlation_id;
      operation_key = phase_key job.id "planning" (job.attempt + 1);
      attempt = job.attempt + 1;
      page_id = none;
      validation_run_id = none;
      export_job_id = none;
    };
    attempt = job.attempt + 1;
    available_at = now + retry_delay uniform (job.attempt + 1);
    published_at = none;
    created_at = now;
  }

  revived : Db
  revived = record s {
    jobs = update_job id expire_lease s.jobs;
    outbox = s.outbox ++ replanned ∷ [];
  }

  stuck_claim :
      (t : Db) (k : Job) (c : Command) (worker_id : String) (lease_ms later : ℕ)
      → find_job c.job_id t.jobs ≡ some k
      → (k.status ≡ extracting) ⊎ (k.status ≡ validating)
      → claim_planning c worker_id lease_ms later t ≡ err invalid_transition
  unfolding claim_planning ◌>>=◌
  stuck_claim t k c worker_id lease_ms later f (inl e) = rw (f, e)
  stuck_claim t k c worker_id lease_ms later f (inr e) = rw (f, e)

  -- A job that loses its lease while its pages are extracted or its records validated, with attempts
  -- left and a new operation key, is counted as recovered: one row is added to the outbox. That row
  -- asks for planning, and every claim of the job for planning, on the tables the recovery leaves,
  -- raises INVALID_TRANSITION.
  pub recover_job-stuck :
      (job.status ≡ extracting) ⊎ (job.status ≡ validating)
      → ltb job.max_attempts (job.attempt + 1) ≡ false
      → any
          (λ r. key_eq r.command.operation_key (phase_key job.id "planning" (job.attempt + 1)))
          s.outbox
        ≡ false
      → (t : Db) × ((recover_job uniform now id s ≡ ok (1, t))
          × ((w : WorkOutbox) × ((t.outbox ≡ s.outbox ++ w ∷ []) × (w.command_type ≡ run_planning)))
          × ((c : Command) (worker_id : String) (lease_ms later : ℕ)
              → c.job_id ≡ id
              → claim_planning c worker_id lease_ms later t ≡ err invalid_transition))
  unfolding recover_job retry_job resume requeue modify_job add_work expire_lease revived replanned
      ◌>>=◌
  recover_job-stuck p b c = (
    revived,
    (
      queued_again p,
      (replanned, (refl, refl)),
      λ d worker_id lease_ms later e.
          stuck_claim revived (keep_id expire_lease job) d worker_id lease_ms later
            (rw e (find_job-updated id expire_lease s.jobs job found)) p,
    ),
  )
    where
      queued_again :
          (job.status ≡ extracting) ⊎ (job.status ≡ validating)
          → recover_job uniform now id s ≡ ok (1, revived)
      queued_again (inl e) = rw (found, lost, kept, b, e, c)
      queued_again (inr e) = rw (found, lost, kept, b, e, c)
