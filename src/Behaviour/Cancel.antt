-- ===== src/Behaviour/Cancel.antt =====
-- The outcomes of `cancel`.
use web_data_extraction_engi.Prelude.{
  ℕ, ◌≡◌, ◌⊎◌, refl, true, false, ◌||◌, some, Bool-cases, inl, inr, arith,
}
use web_data_extraction_engi.Domain.{JobStatus, completed, failed, cancelled, is_allowed, status_eq}
use web_data_extraction_engi.Domain.Graph.{is_terminal, status_eq-eq}
use web_data_extraction_engi.Store.{Db, Job}
use web_data_extraction_engi.Store.Tx.{ok, err, ◌>>=◌, some_or, invalid_transition}
use web_data_extraction_engi.Store.Jobs.{find_job, update_job, modify_job, keep_id}
use web_data_extraction_engi.Service.Columns.{enter, request_cancel}
use web_data_extraction_engi.Service.Lifecycle.{cancel, get_job, owned_job, request_and_cancel}
use web_data_extraction_engi.Behaviour.Inversion.{find_job-updated}
use web_data_extraction_engi.Behaviour.Transitions.{transition-commits, find_job-changed}

live-cancelled : (s : JobStatus) → is_terminal s ≡ false → is_allowed s cancelled ≡ true
live-cancelled s h = ground arith

module _ (id principal_id correlation_id now : ℕ) (s : Db) where
  requested : Db
  requested = record s { jobs = update_job id (request_cancel now principal_id) s.jobs }

  request_and_cancel-commits :
      (job : Job)
      → find_job id s.jobs ≡ some job
      → is_terminal job.status ≡ false
      → (t : Db) × ((request_and_cancel id job.status principal_id correlation_id now s
            ≡ ok (tt, t))
          × (find_job id t.jobs
              ≡ some (
                  keep_id
                    (λ j. enter cancelled now (keep_id (request_cancel now principal_id) j))
                    job)))
  unfolding request_and_cancel ◌>>=◌ modify_job requested request_cancel
  request_and_cancel-commits job e live =
      let f = find_job-updated id (request_cancel now principal_id) s.jobs job e in
      (
        _,
        (
          transition-commits id job.status cancelled correlation_id now requested
              (keep_id (request_cancel now principal_id) job) f refl
              (live-cancelled job.status live),
          find_job-changed id job.status cancelled correlation_id now requested
              (keep_id (request_cancel now principal_id) job) f,
        ),
      )

  -- For the owner of a job, `cancel` has three outcomes. A completed or failed job is refused with
  -- INVALID_TRANSITION. A cancelled job is reported as such and nothing changes. Every other job is
  -- cancelled at once, whoever holds its lease: the call commits, the job's row becomes CANCELLED with
  -- the time and the principal of the request, and the answer says so.
  pub cancel_lem :
      (job : Job)
      → find_job id s.jobs ≡ some job
      → owned_job id principal_id s ≡ some job
      → ((status_eq job.status completed || status_eq job.status failed) ≡ true)
          × (cancel id principal_id correlation_id now s ≡ err invalid_transition)
        ⊎ ((job.status ≡ cancelled)
              × (cancel id principal_id correlation_id now s
                  ≡ ok (
                    record { job_id = id; status = cancelled; cancelled_at = job.completed_at },
                    s,
                  ))
            ⊎ (is_terminal job.status ≡ false)
              × ((t : Db) × ((cancel id principal_id correlation_id now s
                      ≡ ok (record { job_id = id; status = cancelled; cancelled_at = some now }, t))
                    × ((k : Job) × ((find_job id t.jobs ≡ some k)
                          × (k.status ≡ cancelled)
                          × (k.cancel_requested_at ≡ some now)
                          × (k.cancelled_by ≡ some principal_id))))))
  unfolding cancel get_job some_or enter request_cancel ◌>>=◌
  cancel_lem job e o = elim (Bool-cases (status_eq job.status completed)) [
    | inl a ↦ inl (rw a, rw (o, a))
    | inr a ↦ elim (Bool-cases (status_eq job.status cancelled)) [
      | inl b ↦ inr (inl (status_eq-eq job.status cancelled b, rw (o, a, b)))
      | inr b ↦ elim (Bool-cases (status_eq job.status failed)) [
        | inl c ↦ inl (rw (a, c), rw (o, a, b, c))
        | inr c ↦
            let live : is_terminal job.status ≡ false = rw (a, b, c) in
            let (t, (r, f)) = request_and_cancel-commits job e live in
            inr (inr (live, (t, (rw (o, a, b, c, r), (_, (f, refl, refl, refl))))))
      ]
    ]
  ]
