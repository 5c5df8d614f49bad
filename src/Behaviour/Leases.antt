-- ===== src/Behaviour/Leases.antt =====
-- The lease of the planner.
use web_data_extraction_engi.Prelude.{
  ℕ, ◌+◌, ◌<◌, ◌≡◌, ◌⊎◌, refl, true, false, none, some, String, ltb, inl, inr, arith,
}
use web_data_extraction_engi.Domain.{queued, planning}
use web_data_extraction_engi.Store.{Db, Job, Source, Command}
use web_data_extraction_engi.Store.Tx.{ok, ◌>>=◌, some_or}
use web_data_extraction_engi.Store.Jobs.{find_job, update_job, modify_job, keep_id}
use web_data_extraction_engi.Service.Columns.{enter, raise_progress, start_attempt}
use web_data_extraction_engi.Service.Lifecycle.{source_row}
use web_data_extraction_engi.Service.Planning.{PlanningOperation, claim_planning, lease_is_live}
use web_data_extraction_engi.Behaviour.Inversion.{find_job-updated}
use web_data_extraction_engi.Behaviour.Transitions.{changed, transition-commits, find_job-changed}

-- a claim that meets a live lease
claim_planning-live :
    (t : Db) (k : Job) (c : Command) (worker_id : String) (lease_ms now until : ℕ)
    → find_job c.job_id t.jobs ≡ some k
    → k.status ≡ planning
    → k.cancel_requested_at ≡ none
    → k.lease_expires_at ≡ some until
    → now < until
    → claim_planning c worker_id lease_ms now t ≡ ok (none, t)
unfolding claim_planning ◌>>=◌
claim_planning-live t k c worker_id lease_ms now until e p n l h =
    let live : ltb now until ≡ true = ground arith in rw (e, p, n, l, live)

module _ (c : Command) (worker_id : String) (lease_ms now : ℕ) (s : Db) where
  -- what a granted claim leaves
  abbrev Granted : Type 0
  Granted =
      (op : PlanningOperation) × ((t : Db) × ((k : Job) × ((claim_planning c worker_id lease_ms now
                s
              ≡ ok (some op, t))
            × (find_job c.job_id t.jobs ≡ some k)
            × (k.status ≡ planning)
            × (k.cancel_requested_at ≡ none)
            × (k.lease_expires_at ≡ some (now + lease_ms)))))

  started : Job → Db
  started job =
      changed (keep_id (raise_progress 10) job) c.job_id queued planning c.correlation_id now
        (record s { jobs = update_job c.job_id (raise_progress 10) s.jobs })

  leased : Db → Db
  leased u = record u {
    jobs = update_job c.job_id (start_attempt worker_id (now + lease_ms)) u.jobs;
  }

  work : Job → Source → PlanningOperation
  work job source = record {
    job_id = c.job_id;
    project_id = job.project_id;
    source_url = source.canonical_url;
    task = job.task_description;
    requested_fields = job.requested_fields;
    options = job.options;
    output_formats = job.output_formats;
  }

  claim-queued :
      (job : Job) (source : Source)
      → find_job c.job_id s.jobs ≡ some job
      → job.status ≡ queued
      → job.cancel_requested_at ≡ none
      → source_row job.source_id s ≡ some source
      → Granted
  unfolding claim_planning modify_job some_or ◌>>=◌ raise_progress update_job enter start_attempt
      started leased work
  claim-queued job source e p n q =
      let s1 : Db = record s { jobs = update_job c.job_id (raise_progress 10) s.jobs } in
      let f = find_job-updated c.job_id (raise_progress 10) s.jobs job e in
      let r =
        transition-commits c.job_id queued planning c.correlation_id now s1
          (keep_id (raise_progress 10) job) f p refl in
      let g =
        find_job-changed c.job_id queued planning c.correlation_id now s1
          (keep_id (raise_progress 10) job) f in
      (
        work job source,
        (
          leased (started job),
          (
            _,
            (
              rw (e, p, n, r, q),
              find_job-updated c.job_id (start_attempt worker_id (now + lease_ms)) _ _ g,
              refl,
              n,
              refl,
            ),
          ),
        ),
      )

  claim-taken_over :
      (job : Job) (source : Source)
      → find_job c.job_id s.jobs ≡ some job
      → job.status ≡ planning
      → lease_is_live job now ≡ false
      → job.cancel_requested_at ≡ none
      → source_row job.source_id s ≡ some source
      → Granted
  unfolding claim_planning modify_job some_or ◌>>=◌ start_attempt leased work
  claim-taken_over job source e p l n q = (
    work job source,
    (
      leased s,
      (
        _,
        (
          rw (e, p, n, l, q),
          find_job-updated c.job_id (start_attempt worker_id (now + lease_ms)) _ _ e,
          p,
          n,
          refl,
        ),
      ),
    ),
  )

  -- A job that is queued, or in planning under a lease that has run out, whose source is there and
  -- whose cancellation is not requested, is granted to the worker that claims it. Until the lease of
  -- that claim ends, every further claim of the job by any worker gets nothing and changes nothing.
  pub claim_planning-exclusive :
      (job : Job) (source : Source)
      → find_job c.job_id s.jobs ≡ some job
      → (job.status ≡ queued) ⊎ ((job.status ≡ planning) × (lease_is_live job now ≡ false))
      → job.cancel_requested_at ≡ none
      → source_row job.source_id s ≡ some source
      → (op : PlanningOperation) × ((t : Db) × ((claim_planning c worker_id lease_ms now s
              ≡ ok (some op, t))
            × ((other : String) (other_ms later : ℕ)
                → later < now + lease_ms
                → claim_planning c other other_ms later t ≡ ok (none, t))))
  claim_planning-exclusive job source e p n q = excluded (elim p [
    | inl p' ↦ claim-queued job source e p' n q
    | inr (p', l) ↦ claim-taken_over job source e p' l n q
  ])
    where
      excluded :
          Granted
          → (op : PlanningOperation) × ((t : Db) × ((claim_planning c worker_id lease_ms now s
                  ≡ ok (some op, t))
                × ((other : String) (other_ms later : ℕ)
                    → later < now + lease_ms
                    → claim_planning c other other_ms later t ≡ ok (none, t))))
      excluded (op, (t, (k, (r, f, st, cn, ls)))) = (
        op,
        (
          t,
          (
            r,
            λ other other_ms later h.
                claim_planning-live t k c other other_ms later (now + lease_ms) f st cn ls h,
          ),
        ),
      )
