-- ===== src/Worker/Retries.antt =====
-- worker.py: the retries of `run_planning`. A handler that raises `Retry` is delivered again.
use web_data_extraction_engi.Prelude.{
  ℕ, zero, suc, ◌+◌, ◌-◌, ◌≤◌, ◌<◌, ◌≡◌, refl, true, Bool-cases, Option-cases, inl, inr, List, [],
  sym, ap, Option, none, some, maybe, arith, leb, leb→le, is_some,
}
use web_data_extraction_engi.Domain.{planning, status_eq}
use web_data_extraction_engi.Store.{Db, Job, Project, Command}
use web_data_extraction_engi.Store.Tx.{Result, ok, err, pure, continue, ◌>>=◌}
use web_data_extraction_engi.Store.Jobs.{find_job, modify_job, update_job, keep_id}
use web_data_extraction_engi.Store.Events.{append_event}
use web_data_extraction_engi.Service.Columns.{Failure, set_failure, count_attempt}
use web_data_extraction_engi.Service.Planning.{PlanningOperation, claim_planning, fail_planning}
use web_data_extraction_engi.Invariant.Tables.{Valid, Evolves, RowStep, Advance, Advance-trans}
use web_data_extraction_engi.Invariant.Rules.{Commits}
use web_data_extraction_engi.Invariant.Planning.{Keeps-claim_planning, Keeps-fail_planning}
use web_data_extraction_engi.Behaviour.Inversion.{find_job-updated}
use web_data_extraction_engi.System.{Externals, Call, run, initial}
use web_data_extraction_engi.System.Invariants.{Advance-run, run-Valid}
use web_data_extraction_engi.Worker.{
  WorkerConfig, Answer, done, retry_after, raised, uncaught, proceed, session, retry_or_done,
}
use web_data_extraction_engi.Worker.Planning.{
  Planner, Planning, planned, refused, crashed, report_planning_failure, conclude_planning,
  run_planning,
}

-- the attempts that the job's row counts
abbrev pub attempts : ℕ → Db → ℕ
attempts id db = maybe (find_job id db.jobs) 0 (λ j. j.attempt)

RowStep-attempts :
    (o p : Option Job) → RowStep o p → maybe o 0 (λ j. j.attempt) ≤ maybe p 0 (λ j. j.attempt)
RowStep-attempts none p h = omega arith
RowStep-attempts (some j) none h = absurd h
RowStep-attempts (some j) (some k) h = h.attempts

Evolves-attempts : (id : ℕ) (s t : Db) → Evolves s t → attempts id s ≤ attempts id t
Evolves-attempts id s t e = RowStep-attempts (find_job id s.jobs) (find_job id t.jobs) (e.jobs id)

-- a transaction that ends by answering `none`
ends_none :
    {A B : Type 0} (r : Result (A × Db)) (t : Db) (b : B)
    → continue r (λ a. pure none) ≡ ok (some b, t)
    → ⊥
unfolding pure
ends_none (ok (a, u)) t b h = cc h
ends_none (err e) t b h = cc h

abbrev jobs_of : {A : Type 0} → Result (A × Db) → List Job
jobs_of (ok (a, t)) = t.jobs
jobs_of (err e) = []

pub counted_row :
    (id : ℕ) (error : Failure) (js : List Job) (job : Job)
    → find_job id js ≡ some job
    → find_job id (update_job id count_attempt (update_job id (set_failure error) js))
      ≡ some (keep_id count_attempt (keep_id (set_failure error) job))
counted_row id error js job found =
    find_job-updated id count_attempt (update_job id (set_failure error) js)
      (keep_id (set_failure error) job) (find_job-updated id (set_failure error) js job found)

attempts_of_row :
    (id : ℕ) (db : Db) (job : Job) → find_job id db.jobs ≡ some job → attempts id db ≡ job.attempt
attempts_of_row id db job found = rw found

-- the tables that a counted attempt leaves
counted :
    (id budget : ℕ) (error : Failure) (s t : Db) (job : Job)
    → find_job id s.jobs ≡ some job
    → t.jobs ≡ update_job id count_attempt (update_job id (set_failure error) s.jobs)
    → job.attempt + 1 ≤ budget
    → (attempts id s + 1 ≤ attempts id t) × (attempts id t ≤ budget)
unfolding count_attempt set_failure
counted id budget error s t job found e h =
    let before = attempts_of_row id s job found in
    let row = rw (← e) at (counted_row id error s.jobs job found) in
    let later =
      attempts_of_row id t (keep_id count_attempt (keep_id (set_failure error) job)) row in
    omega (arith, before, later)

-- a retry that `fail_planning` grants has counted an attempt, within the budget
fail_planning-retry :
    (c : Command) (e : Failure) (budget now n : ℕ) (s t : Db)
    → fail_planning c e budget now s ≡ ok (some n, t)
    → (attempts c.job_id s + 1 ≤ attempts c.job_id t) × (attempts c.job_id t ≤ budget)
unfolding fail_planning ◌>>=◌ modify_job append_event count_attempt set_failure
fail_planning-retry c e budget now n s t h = elim (Option-cases (find_job c.job_id s.jobs)) [
  | inl gone ↦ cc (rw gone at h)
  | inr (job, found) ↦ elim (Bool-cases (status_eq job.status planning)) [
    | inr other ↦ cc (rw (found, other) at h)
    | inl here ↦ elim (Bool-cases (is_some job.cancel_requested_at)) [
      | inl stop ↦ absurd (ends_none _ t n (rw (found, here, stop) at h))
      | inr go ↦ elim (Bool-cases e.retryable) [
        | inr final ↦ absurd (ends_none _ t n (rw (found, here, go, final) at h))
        | inl again ↦ elim (Bool-cases (leb (job.attempt + 1) budget)) [
          | inl room ↦
              counted c.job_id budget (record e { retryable = true }) s t job found
                (sym (ap jobs_of (rw (found, here, go, again, room) at h))) (leb→le _ _ room)
          | inr spent ↦ absurd (ends_none _ t n (rw (found, here, go, again, spent) at h))
        ]
      ]
    ]
  ]
]

-- what an answer says of the attempts before and after it
abbrev Progress : ℕ → ℕ → Db → Answer × Db → Type 0
Progress id budget s (retry_after d, t) =
    (attempts id s + 1 ≤ attempts id t) × (attempts id t ≤ budget) × Advance s t
Progress id budget s (done, t) = Unit
Progress id budget s (raised e, t) = Unit
Progress id budget s (uncaught e, t) = Unit

module _ (w : WorkerConfig) (planner : Planner) (c : Command) where
  report_planning_failure-Progress :
      (error : Failure) (finish : ℕ) (s : Db)
      → Progress c.job_id w.planner_max_retries s
          (report_planning_failure w planner c error finish s)
  unfolding report_planning_failure session
  report_planning_failure-Progress error finish s =
      decide (fail_planning c error w.planner_max_retries finish s) refl
        ((Keeps-fail_planning c error w.planner_max_retries finish).at s)
    where
      decide :
          (r : Result (Option ℕ × Db))
          → fail_planning c error w.planner_max_retries finish s ≡ r
          → Commits s r
          → Progress c.job_id w.planner_max_retries s
              (proceed s r (λ retry t. (retry_or_done w retry, t)))
      decide (ok (none, t)) e k = tt
      decide (ok (some n, t)) e k =
          let p = fail_planning-retry c error w.planner_max_retries finish n s t e in (p.0, p.1, k)
      decide (err x) e k = tt

  never_retries :
      {A : Type 0} (r : Result (A × Db)) (s : Db)
      → Progress c.job_id w.planner_max_retries s (proceed s r (λ a t. (done, t)))
  never_retries (ok (a, t)) s = tt
  never_retries (err e) s = tt

  conclude_planning-Progress :
      (answer : Planning) (finish : ℕ) (s : Db)
      → Progress c.job_id w.planner_max_retries s (conclude_planning w planner c answer finish s)
  unfolding conclude_planning session
  conclude_planning-Progress (planned plan) finish s = never_retries _ s
  conclude_planning-Progress (refused e message) finish s =
      report_planning_failure-Progress _ finish s
  conclude_planning-Progress crashed finish s = report_planning_failure-Progress _ finish s

Progress-later :
    (id budget : ℕ) (s u : Db) (r : Answer × Db)
    → Valid s
    → Advance s u
    → Progress id budget u r
    → Progress id budget s r
Progress-later id budget s u (retry_after d, t) v a (p, q, k) =
    (omega (arith, Evolves-attempts id s u (a.at v).1), q, Advance-trans a k)
Progress-later id budget s u (done, t) v a p = tt
Progress-later id budget s u (raised e, t) v a p = tt
Progress-later id budget s u (uncaught e, t) v a p = tt

module _ (w : WorkerConfig) (c : Command) (x : Externals) where
  run_planning-Progress :
      (planner : Planner) (others : List (ℕ × Call)) (start finish : ℕ) (s : Db)
      → Valid s
      → Progress c.job_id w.planner_max_retries s
          (run_planning w planner c (run x others) start finish s)
  unfolding run_planning session
  run_planning-Progress planner others start finish s v =
      decide (claim_planning c w.worker_id w.worker_lease_ms start s)
        ((Keeps-claim_planning c w.worker_id w.worker_lease_ms start).at s)
    where
      decide :
          (r : Result (Option PlanningOperation × Db))
          → Commits s r
          → Progress c.job_id w.planner_max_retries s (
              proceed s r (λ claimed t.
                maybe claimed
                  (done, t)
                  (λ op.
                    conclude_planning w planner c
                      (planner.create_plan op)
                      finish
                      (run x others t))))
      decide (ok (none, t)) k = tt
      decide (ok (some op, t)) k =
          Progress-later c.job_id w.planner_max_retries s (run x others t) _ v
            (Advance-trans k (Advance-run x others t))
            (conclude_planning-Progress w planner c (planner.create_plan op) finish
              (run x others t))
      decide (err e) k = tt

  -- one delivery: the planner with its answers, the calls of others, the start and the end
  abbrev pub Attempt : Type 0
  Attempt = Planner × List (ℕ × Call) × ℕ × ℕ

  abbrev pub again : Answer × Db → (Db → Option Db) → Option Db
  again (retry_after d, t) next = next t
  again (done, t) next = some t
  again (raised e, t) next = some t
  again (uncaught e, t) next = some t

  -- the queue delivers the command as long as the handler raises `Retry`; `none` means that the fuel
  -- ran out
  pub deliver : ℕ → ℕ → (ℕ → Attempt) → Db → Option Db
  deliver zero n attempt s = none
  deliver (suc fuel) n attempt s =
      let (planner, others, start, finish) = attempt n in
      again (run_planning w planner c (run x others) start finish s) (deliver fuel (suc n) attempt)

  again-ends :
      (fuel : ℕ) (s : Db) (r : Answer × Db) (next : Db → Option Db)
      → w.planner_max_retries - attempts c.job_id s < suc fuel
      → Valid s
      → Progress c.job_id w.planner_max_retries s r
      → ((t : Db)
          → Valid t
          → w.planner_max_retries - attempts c.job_id t < fuel
          → (u : Db) × (next t ≡ some u))
      → (u : Db) × (again r next ≡ some u)
  again-ends fuel s (retry_after d, t) next h v (p, q, k) f = f t (k.at v).0 (omega arith)
  again-ends fuel s (done, t) next h v p f = (t, refl)
  again-ends fuel s (raised e, t) next h v p f = (t, refl)
  again-ends fuel s (uncaught e, t) next h v p f = (t, refl)

  deliver-ends :
      (fuel n : ℕ) (attempt : ℕ → Attempt) (s : Db)
      → Valid s
      → w.planner_max_retries - attempts c.job_id s < fuel
      → (u : Db) × (deliver fuel n attempt s ≡ some u)
  unfolding deliver
  deliver-ends zero n attempt s v h = absurd (omega arith)
  deliver-ends (suc fuel) n attempt s v h =
      let (planner, others, start, finish) = attempt n in
      again-ends fuel s (run_planning w planner c (run x others) start finish s)
        (deliver fuel (suc n) attempt) h v (run_planning-Progress planner others start finish s v)
        (λ t vt ht. deliver-ends fuel (suc n) attempt t vt ht)

  -- From tables that some calls left, the deliveries of a planning command end: whatever the planner
  -- answers each time and whatever others call meanwhile, after at most `planner_max_retries` retries
  -- the handler no longer raises `Retry`.
  pub deliver-terminates :
      (calls : List (ℕ × Call)) (projects : List Project) (attempt : ℕ → Attempt)
      → (u : Db) × (deliver (suc w.planner_max_retries) 0 attempt (run x calls (initial projects))
          ≡ some u)
  deliver-terminates calls projects attempt =
      deliver-ends (suc w.planner_max_retries) 0 attempt (run x calls (initial projects))
        (run-Valid x calls projects) (omega arith)
