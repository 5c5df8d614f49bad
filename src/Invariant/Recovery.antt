-- ===== src/Invariant/Recovery.antt =====
-- The recovery of expired leases keeps the invariant.
use web_data_extraction_engi.Prelude.{
  ℕ, ◌+◌, ◌≡◌, refl, inl, inr, true, List, [], ◌∷◌, Option, some, is_some, ltb, arith, Bool-cases,
  Option-cases,
}
use web_data_extraction_engi.Domain.{is_active}
use web_data_extraction_engi.Store.{Db, Job, CommandType, OperationKey}
use web_data_extraction_engi.Store.Tx.{◌>>=◌}
use web_data_extraction_engi.Store.Jobs.{find_job, modify_job}
use web_data_extraction_engi.Store.Events.{append_event}
use web_data_extraction_engi.Service.Columns.{abandon}
use web_data_extraction_engi.Service.Recovery.{
  Phase, is_expired, requeue, resume, give_up, retry_job, recover_job, recover_jobs,
  recover_expired_leases,
}
use web_data_extraction_engi.Invariant.Tables.{Advance-refl}
use web_data_extraction_engi.Invariant.Rules.{Keeps, Keeps-bind, Commits}
use web_data_extraction_engi.Invariant.Settle.{MildAt, Advance-settle}
use web_data_extraction_engi.Invariant.Columns.{abandon-JobOk, abandon-JobStep}
use web_data_extraction_engi.Invariant.Lifecycle.{service_rules}

module _ (uniform : ℕ → ℕ) (now : ℕ) where
  Keeps-requeue :
      (job : Job) (attempt : ℕ) (t : CommandType) (key : OperationKey) (p r e : Option ℕ)
      → Keeps (requeue uniform now job attempt t key p r e)
  unfolding requeue
  Keeps-requeue job attempt t key p r e = search service_rules

  Keeps-resume :
      (job : Job) (attempt : ℕ) (phase : Phase) → Keeps (resume uniform now job attempt phase)
  unfolding resume
  Keeps-resume job attempt Phase.discovery = search (service_rules, Keeps-requeue) depth 20
  Keeps-resume job attempt Phase.export = search (service_rules, Keeps-requeue) depth 20
  Keeps-resume job attempt _ = search (service_rules, Keeps-requeue)

  Keeps-retry_job : (id : ℕ) (job : Job) → Keeps (retry_job uniform now id job)
  unfolding retry_job
  Keeps-retry_job id job = search (service_rules, Keeps-resume) depth 20

  MildAt-abandon :
      (o : Option Job) (job : Job)
      → o ≡ some job
      → is_active job.status ≡ true
      → MildAt o (abandon now)
  MildAt-abandon o job e a = rw e (λ h. (abandon-JobOk now job a h, abandon-JobStep now job a h))

  Commits-give_up :
      (id : ℕ) (s : Db) (job : Job)
      → MildAt (find_job id s.jobs) (abandon now)
      → Commits s (give_up uniform now id job s)
  unfolding give_up ◌>>=◌ modify_job append_event
  Commits-give_up id s job m = Advance-settle s id (abandon now) _ m refl

  expired_active : (job : Job) → is_expired now job ≡ true → is_active job.status ≡ true
  expired_active job h = ground arith

  recover_at : (id : ℕ) (s : Db) → Commits s (recover_job uniform now id s)
  unfolding recover_job ◌>>=◌
  recover_at id s = elim (Option-cases (find_job id s.jobs)) [
    | inl e ↦ rw e (Advance-refl s)
    | inr (job, e) ↦ elim (Bool-cases (is_expired now job)) [
      | inr x ↦ rw (e, x) (Advance-refl s)
      | inl x ↦ elim (Bool-cases (is_some job.cancel_requested_at)) [
        | inl c ↦ rw (e, x, c) (Advance-refl s)
        | inr c ↦ elim (Bool-cases (ltb job.max_attempts (job.attempt + 1))) [
          | inl b ↦
              rw (e, x, c, b)
                (Commits-give_up id s job
                  (MildAt-abandon (find_job id s.jobs) job e (expired_active job x)))
          | inr b ↦ rw (e, x, c, b) ((Keeps-retry_job id job).at s)
        ]
      ]
    ]
  ]

  Keeps-recover_jobs : (ids : List ℕ) → Keeps (recover_jobs uniform now ids)
  unfolding recover_jobs
  Keeps-recover_jobs [] = search service_rules
  Keeps-recover_jobs (id ∷ rest) =
      Keeps-bind _ _ (record { at = recover_at id })
        (λ n. Keeps-bind _ _ (Keeps-recover_jobs rest) (λ m. search service_rules))

  pub Keeps-recover_expired_leases : Keeps (recover_expired_leases uniform now)
  unfolding recover_expired_leases
  Keeps-recover_expired_leases = search (service_rules, Keeps-recover_jobs)
