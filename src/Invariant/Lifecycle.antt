-- ===== src/Invariant/Lifecycle.antt =====
-- `transition` and `cancel` keep the invariant.
use web_data_extraction_engi.Prelude.{
  ℕ, ◌≡◌, ◌≢◌, refl, sym, ap, ==_iff, Bool, true, false, Option, none, some, arith, ◌⊎◌, Bool-cases,
  Option-cases, inl, inr, maybe, if◌then◌else◌, is_some, not, ◌||◌,
}
use web_data_extraction_engi.Domain.{
  JobStatus, completed, cancelled, ready_for_export, is_allowed, status_eq,
}
use web_data_extraction_engi.Domain.Graph.{status_eq-eq, is_allowed-live, is_terminal}
use web_data_extraction_engi.Store.{Db, Job}
use web_data_extraction_engi.Store.Tx.{◌>>=◌, err, invalid_transition}
use web_data_extraction_engi.Store.Jobs.{
  find_job, update_job, modify_job, keep_id, map_row, find_job-update_job, update_job-update_job,
}
use mathlib.Core.Option.{some-injective}
use mathlib.Core.Path.{subst}
use web_data_extraction_engi.Store.Events.{append_event}
use web_data_extraction_engi.Service.Columns.{enter, request_cancel}
use web_data_extraction_engi.Service.Lifecycle.{
  enter_state, transition, get_job, request_and_cancel, cancel,
}
use web_data_extraction_engi.Invariant.Job.{JobOk, JobStep, JobStep-trans}
use web_data_extraction_engi.Invariant.Rules.{Keeps, Commits, keeps_rules}
use web_data_extraction_engi.Invariant.Settle.{
  MildAt, Advance-settle, Keeps-modify_job, Keeps-append_event,
}
use web_data_extraction_engi.Invariant.Columns.{
  enter-JobOk, enter-JobStep, request-JobStep, mild_rules,
}
use web_data_extraction_engi.Invariant.Frame.{frame_rules}

-- the states that a change may enter without a further condition
abbrev pub is_enterable : JobStatus → Bool
is_enterable ready_for_export = false
is_enterable completed = false
is_enterable _ = true

module _ (k : ℕ) (expected target : JobStatus) (correlation_id now : ℕ) where
  Commits-enter_state :
      (s : Db) (job : Job)
      → MildAt (find_job k s.jobs) (enter target now)
      → Commits s (enter_state job k expected target correlation_id now s)
  unfolding enter_state ◌>>=◌ modify_job append_event
  Commits-enter_state s job m = Advance-settle s k (enter target now) _ m refl

  -- what `transition` does: it raises, or its checks have passed for the job's row
  pub transition-cases :
      (s : Db)
      → (transition k expected target correlation_id now s ≡ err invalid_transition)
        ⊎ ((job : Job) × (find_job k s.jobs ≡ some job)
            × (is_allowed expected target ≡ true)
            × (status_eq job.status expected ≡ true)
            × (transition k expected target correlation_id now s
                ≡ enter_state job k expected target correlation_id now s))
  unfolding transition ◌>>=◌
  transition-cases s = elim (Bool-cases (is_allowed expected target)) [
    | inr e ↦ inl (rw e)
    | inl a ↦ elim (Option-cases (find_job k s.jobs)) [
      | inl e ↦ inl (rw (a, e))
      | inr (job, e) ↦ elim (Bool-cases (status_eq job.status expected)) [
        | inr n ↦ inl (rw (a, e, n))
        | inl y ↦ inr (job, e, a, y, rw (a, e, y, live job a y))
      ]
    ]
  ]
    where
      live :
          (job : Job)
          → is_allowed expected target ≡ true
          → status_eq job.status expected ≡ true
          → is_terminal job.status ≡ false
      live job a y = rw (status_eq-eq job.status expected y) (is_allowed-live expected target a)

  MildAt-enter :
      (o : Option Job) (job : Job)
      → o ≡ some job
      → is_allowed expected target ≡ true
      → status_eq job.status expected ≡ true
      → target ≢ ready_for_export
      → target ≢ completed
      → MildAt o (enter target now)
  MildAt-enter o job e a y nr nc =
      let a' : is_allowed job.status target ≡ true = rw (status_eq-eq job.status expected y) a in
      rw e (λ h. (enter-JobOk target now job a' nr nc h, enter-JobStep target now job a'))

  pub Keeps-transition :
      target ≢ ready_for_export
      → target ≢ completed
      → Keeps (transition k expected target correlation_id now)
  Keeps-transition nr nc = record {
    at = λ s. elim (transition-cases s) [
      | inl e ↦ rw e tt
      | inr (job, found, a, y, e) ↦
          rw e (Commits-enter_state s job (MildAt-enter (find_job k s.jobs) job found a y nr nc))
    ];
  }

  pub Keeps-enter :
      is_enterable target ≡ true → Keeps (transition k expected target correlation_id now)
  Keeps-enter h = Keeps-transition (λ e. cc (ap is_enterable e)) (λ e. cc (ap is_enterable e))

  -- A write that only together with the change of status keeps the row in order.
  abbrev pub Joint : (Job → Job) → Type 0
  Joint f =
      (j : Job)
      → is_allowed (keep_id f j).status target ≡ true
      → JobOk j
      → JobOk (keep_id (λ i. enter target now (keep_id f i)) j)
        × JobStep j (keep_id (λ i. enter target now (keep_id f i)) j)

  module _ (f : Job → Job) (joint : Joint f) where
    MildAt-joint :
        (o : Option Job) (job : Job)
        → map_row f o ≡ some job
        → is_allowed job.status target ≡ true
        → MildAt o (λ i. enter target now (keep_id f i))
    MildAt-joint none job e a = tt
    MildAt-joint (some j) job e a = joint j (
        subst (λ x. is_allowed x.status target ≡ true) (sym (some-injective (keep_id f j) job e)) a)

    found_before :
        (s : Db) (job : Job)
        → find_job k (update_job k f s.jobs) ≡ some job
        → map_row f (find_job k s.jobs) ≡ some job
    found_before s job e = rw (find_job-update_job, (==_iff k k).1 refl) at e

    Commits-joint :
        (s : Db) (job : Job)
        → MildAt (find_job k s.jobs) (λ i. enter target now (keep_id f i))
        → Commits s (
            enter_state job k expected target correlation_id now
              (record s { jobs = update_job k f s.jobs }))
    unfolding enter_state ◌>>=◌ modify_job append_event
    Commits-joint s job m =
        rw update_job-update_job (Advance-settle s k (λ i. enter target now (keep_id f i)) _ m refl)

    joint_at :
        (s : Db)
        → Commits s ((modify_job k f >>= λ _. transition k expected target correlation_id now) s)
    unfolding ◌>>=◌ modify_job
    joint_at s = elim (transition-cases (record s { jobs = update_job k f s.jobs })) [
      | inl e ↦ rw e tt
      | inr (job, found, a, y, e) ↦ rw e (
          Commits-joint s job (
            MildAt-joint (find_job k s.jobs) job (found_before s job found)
              (rw (status_eq-eq job.status expected y) a)))
    ]

    pub Keeps-joint :
        Keeps (modify_job k f >>= λ _. transition k expected target correlation_id now)
    Keeps-joint = record { at = joint_at }

-- what the proofs about the methods search with
pub ruleset service_rules =
    (keeps_rules, mild_rules, frame_rules, Keeps-modify_job, Keeps-append_event, Keeps-enter, refl)

-- The request and the cancellation together keep the row in order.
request-Joint :
    (k : ℕ) (expected : JobStatus) (correlation_id now principal_id : ℕ)
    → Joint k expected cancelled correlation_id now (request_cancel now principal_id)
unfolding enter request_cancel
request-Joint k expected correlation_id now principal_id j a h = (
  ground (arith, is_allowed-live j.status cancelled a),
  JobStep-trans (request-JobStep now principal_id j)
      (enter-JobStep cancelled now (keep_id (request_cancel now principal_id) j) a),
)

Keeps-request_and_cancel :
    (k : ℕ) (status : JobStatus) (principal_id correlation_id now : ℕ)
    → Keeps (request_and_cancel k status principal_id correlation_id now)
unfolding request_and_cancel
Keeps-request_and_cancel k status principal_id correlation_id now =
    Keeps-joint k status cancelled correlation_id now (request_cancel now principal_id)
      (request-Joint k status correlation_id now principal_id)

pub Keeps-cancel :
    (job_id principal_id correlation_id now : ℕ)
    → Keeps (cancel job_id principal_id correlation_id now)
unfolding cancel get_job
Keeps-cancel job_id principal_id correlation_id now =
    search (service_rules, Keeps-request_and_cancel) depth 20
