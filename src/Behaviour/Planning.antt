-- ===== src/Behaviour/Planning.antt =====
-- The lease of the planner and the hand-off of a finished plan.
use web_data_extraction_engi.Prelude.{
  ℕ, ◌≡◌, refl, true, false, [], ◌∷◌, ◌++◌, none, some, String, any,
}
use web_data_extraction_engi.Domain.{planning, browser_initializing}
use web_data_extraction_engi.Store.{
  Db, Job, Command, CanonicalPlan, ExtractionPlan, WorkOutbox, phase_key, run_browser_capture,
}
use web_data_extraction_engi.Store.Tx.{ok, ◌>>=◌}
use web_data_extraction_engi.Store.Jobs.{find_job, update_job, modify_job, keep_id}
use web_data_extraction_engi.Store.Tables.{add_plan, add_work, key_eq}
use web_data_extraction_engi.Service.Columns.{enter, raise_progress, release_lease}
use web_data_extraction_engi.Service.Planning.{complete_planning, plan_row}
use web_data_extraction_engi.Behaviour.Inversion.{find_job-updated}
use web_data_extraction_engi.Behaviour.Transitions.{changed, transition-commits, find_job-changed}

-- the outbox row of the browser work
abbrev pub browser_work : Job → Command → ℕ → WorkOutbox
browser_work job c now = record {
  command_type = run_browser_capture;
  command = record {
    job_id = c.job_id;
    project_id = job.project_id;
    correlation_id = c.correlation_id;
    operation_key = phase_key c.job_id "browser" 1;
    attempt = 1;
    page_id = none;
    validation_run_id = none;
    export_job_id = none;
  };
  attempt = 1;
  available_at = now;
  published_at = none;
  created_at = now;
}

-- A plan that comes for a job which already waits for the browser is dropped.
complete_planning-again :
    (s : Db) (k : Job) (c : Command) (plan : CanonicalPlan) (hash provider model : String) (now : ℕ)
    → find_job c.job_id s.jobs ≡ some k
    → k.status ≡ browser_initializing
    → complete_planning c plan hash provider model now s ≡ ok (false, s)
unfolding complete_planning ◌>>=◌
complete_planning-again s k c plan hash provider model now e b = rw (e, b)

module _ (c : Command) (plan : CanonicalPlan) (hash provider model : String) (now : ℕ)
    (s : Db) where
  pub planned : ExtractionPlan
  planned = record {
    job_id = c.job_id;
    version = plan.plan_version;
    plan = plan;
    model_name = model;
    provider_name = provider;
    plan_hash = hash;
  }

  stored : Db
  unfolding planned
  stored = record s {
    plans = s.plans ++ planned ∷ [];
    jobs = update_job c.job_id (raise_progress 20) s.jobs;
  }

  -- The tables after the plan is stored: the plan, the change of status and the work.
  handed : Job → Db
  unfolding stored
  handed job =
      let u =
        changed (keep_id (raise_progress 20) job) c.job_id planning browser_initializing
          c.correlation_id now stored in
      record u {
        outbox = u.outbox ++ browser_work job c now ∷ [];
        jobs = update_job c.job_id release_lease u.jobs;
      }

  complete_planning-handed :
      (job : Job)
      → find_job c.job_id s.jobs ≡ some job
      → job.status ≡ planning
      → job.cancel_requested_at ≡ none
      → any (plan_row c.job_id plan.plan_version) s.plans ≡ false
      → any (λ r. key_eq r.command.operation_key (phase_key c.job_id "browser" 1)) s.outbox ≡ false
      → complete_planning c plan hash provider model now s ≡ ok (true, handed job)
  unfolding complete_planning add_plan add_work modify_job handed stored planned ◌>>=◌
      raise_progress update_job enter
  complete_planning-handed job e p n v w =
      let f = find_job-updated c.job_id (raise_progress 20) s.jobs job e in
      let r =
        transition-commits c.job_id planning browser_initializing c.correlation_id now stored
          (keep_id (raise_progress 20) job) f p refl in
      rw (e, p, n, v, v, r, w)

  handed-row :
      (job : Job)
      → find_job c.job_id s.jobs ≡ some job
      → (k : Job) × ((find_job c.job_id (handed job).jobs ≡ some k)
          × (k.status ≡ browser_initializing))
  unfolding handed stored enter release_lease
  handed-row job e =
      let f = find_job-updated c.job_id (raise_progress 20) s.jobs job e in
      let g =
        find_job-changed c.job_id planning browser_initializing c.correlation_id now stored
          (keep_id (raise_progress 20) job) f in
      (_, (find_job-updated c.job_id release_lease _ _ g, refl))

  -- For a job in planning, without a request to cancel it, a plan of a new version and an outbox
  -- without the job's browser work: `complete_planning` commits and answers true; exactly the plan
  -- is added to the plans and exactly the browser work to the outbox; the job's status is
  -- BROWSER_INITIALIZING; and every further plan for the job, the same or another, is answered with
  -- false and changes nothing.
  pub complete_planning-once :
      (job : Job)
      → find_job c.job_id s.jobs ≡ some job
      → job.status ≡ planning
      → job.cancel_requested_at ≡ none
      → any (plan_row c.job_id plan.plan_version) s.plans ≡ false
      → any (λ r. key_eq r.command.operation_key (phase_key c.job_id "browser" 1)) s.outbox ≡ false
      → (t : Db) × ((complete_planning c plan hash provider model now s ≡ ok (true, t))
          × (t.plans ≡ s.plans ++ planned ∷ [])
          × (t.outbox ≡ s.outbox ++ browser_work job c now ∷ [])
          × ((k : Job) × ((find_job c.job_id t.jobs ≡ some k) × (k.status ≡ browser_initializing)))
          × ((plan' : CanonicalPlan) (hash' provider' model' : String) (now' : ℕ)
              → complete_planning c plan' hash' provider' model' now' t ≡ ok (false, t)))
  unfolding handed stored
  complete_planning-once job e p n v w =
      let (k, (f, b)) = handed-row job e in
      (
        handed job,
        (
          complete_planning-handed job e p n v w,
          refl,
          refl,
          (k, (f, b)),
          λ plan' hash' provider' model' now'.
              complete_planning-again (handed job) k c plan' hash' provider' model' now' f b,
        ),
      )
