-- ===== src/Invariant/Creation.antt =====
-- `create_job` keeps the invariant.
use web_data_extraction_engi.Prelude.{
  ℕ, refl, Bool, true, false, List, [], ◌∷◌, ◌++◌, Option, some, String, ◌==◌, if◌then◌else◌, arith,
  Bool-cases, inl, inr,
}
use web_data_extraction_engi.Store.{Db, Job}
use web_data_extraction_engi.Store.Tx.{
  Tx, Result, ok, err, integrity_error, flush_conflict, guarded, on_conflict, relabel, resolve,
}
use web_data_extraction_engi.Store.Jobs.{find_job}
use web_data_extraction_engi.Store.Tables.{add_job}
use web_data_extraction_engi.Service.Creation.{
  JobCreateRequest, CanonicalUrl, new_job, accepted_job, replay, ensure_source, add_planning_work,
  insert_row, insert_job, after_conflict, submit, create_job,
}
use web_data_extraction_engi.Service.Lifecycle.{assert_project_access}
use web_data_extraction_engi.Invariant.Job.{JobOk}
use web_data_extraction_engi.Invariant.Tables.{RowOk, RowStep, RowStep-refl, Advance}
use web_data_extraction_engi.Invariant.Rules.{Keeps, Commits}
use web_data_extraction_engi.Invariant.Lifecycle.{service_rules}
use web_data_extraction_engi.Invariant.Frame.{refused}
use mathlib.Core.List.{append-nil}

RowOk-append :
    (i : ℕ) (js : List Job) (j : Job)
    → JobOk j
    → RowOk (find_job i js)
    → RowOk (find_job i (js ++ j ∷ []))
unfolding find_job
RowOk-append i [] j p h = ground (arith, p)
RowOk-append i (x ∷ js) j p h = ground (arith, RowOk-append i js j p)

RowStep-append :
    (i : ℕ) (js : List Job) (j : Job) → RowStep (find_job i js) (find_job i (js ++ j ∷ []))
unfolding find_job
RowStep-append i [] j = tt
RowStep-append i (x ∷ js) j = elim (Bool-cases (x.id == i)) [
  | inl e ↦ rw e (RowStep-refl (some x))
  | inr e ↦ rw e (RowStep-append i js j)
]

Commits-unless :
    (s t : Db) (clash : Bool) → Advance s t → Commits s (if clash then refused else ok (tt, t))
Commits-unless s t true h = tt
Commits-unless s t false h = h

Advance-append : (s : Db) (j : Job) → JobOk j → Advance s (record s { jobs = s.jobs ++ j ∷ [] })
Advance-append s j p = record {
  at = λ v. (
    record { job = λ i. RowOk-append i s.jobs j p (v.job i); numbered = v.numbered },
    record { jobs = λ i. RowStep-append i s.jobs j; events = ([], rw append-nil) },
  );
}

-- a row that is inserted in order
Keeps-add_job : (j : Job) → JobOk j → Keeps (add_job j)
unfolding add_job
Keeps-add_job j p = record { at = λ s. Commits-unless s _ _ (Advance-append s j p) }

new_job-JobOk :
    (id source_id : ℕ) (request : JobCreateRequest) (correlation_id now : ℕ)
    → JobOk (new_job id source_id request correlation_id now)
unfolding new_job
new_job-JobOk id source_id request correlation_id now = record {
  percent = omega arith;
  cancelled_percent = λ e. omega arith;
  completed_percent = λ e. cc e;
  finished = refl;
  cancel_done = λ e. cc e;
  not_ready = λ e. cc e;
}

Commits-relabel : {A : Type 0} (s : Db) (r : Result (A × Db)) → Commits s r → Commits s (relabel r)
Commits-relabel s (ok x) h = h
Commits-relabel s (err integrity_error) h = tt
Commits-relabel s (err _) h = tt

Commits-resolve :
    {A : Type 0} (s : Db) (x r : Result (A × Db))
    → Commits s x
    → Commits s r
    → Commits s (resolve x r)
Commits-resolve s (ok x) r h k = h
Commits-resolve s (err flush_conflict) r h k = k
Commits-resolve s (err _) r h k = tt

Keeps-guarded : {A : Type 0} (m : Tx A) → Keeps m → Keeps (guarded m)
unfolding guarded
Keeps-guarded m k = record { at = λ s. Commits-relabel s (m s) (k.at s) }

Keeps-on_conflict :
    {A : Type 0} (m handler : Tx A) → Keeps m → Keeps handler → Keeps (on_conflict m handler)
unfolding on_conflict
Keeps-on_conflict m handler km kh = record {
  at = λ s. Commits-resolve s (m s) (handler s) (km.at s) (kh.at s);
}

Keeps-accepted_job : (id : ℕ) → Keeps (accepted_job id)
unfolding accepted_job
Keeps-accepted_job id = search service_rules

Keeps-assert_project_access :
    (project_id principal_id : ℕ) → Keeps (assert_project_access project_id principal_id)
unfolding assert_project_access
Keeps-assert_project_access project_id principal_id = search service_rules

Keeps-insert_job :
    (request : JobCreateRequest) (key : Option String) (fingerprint : String)
    (job_id new_source_id : ℕ) (canonical : CanonicalUrl) (correlation_id now : ℕ)
    → Keeps (insert_job request key fingerprint job_id new_source_id canonical correlation_id now)
unfolding insert_job insert_row ensure_source add_planning_work
Keeps-insert_job request key fingerprint job_id new_source_id canonical correlation_id now =
    search (service_rules, Keeps-add_job, new_job-JobOk, Keeps-guarded) depth 30

Keeps-after_conflict :
    (project_id : ℕ) (key : Option String) (fingerprint : String)
    → Keeps (after_conflict project_id key fingerprint)
unfolding after_conflict
Keeps-after_conflict project_id key fingerprint =
    search (service_rules, Keeps-accepted_job) depth 20

pub Keeps-create_job :
    (validate_initial_url : String → Option CanonicalUrl)
    (request_fingerprint : JobCreateRequest → String) (request : JobCreateRequest)
    (principal_id : ℕ) (key : Option String) (job_id new_source_id correlation_id now : ℕ)
    → Keeps (
        create_job validate_initial_url request_fingerprint request principal_id key job_id
          new_source_id correlation_id now)
unfolding create_job submit replay
Keeps-create_job validate_initial_url request_fingerprint request principal_id key job_id
      new_source_id correlation_id now =
    search
      (
        service_rules, Keeps-accepted_job, Keeps-assert_project_access, Keeps-on_conflict,
        Keeps-insert_job, Keeps-after_conflict,
      )
      depth 30
