-- ===== src/Invariant/Columns.antt =====
-- Each write to a job's columns keeps its row in order.
use web_data_extraction_engi.Prelude.{ℕ, ◌≤◌, ◌≡◌, ◌≢◌, refl, inl, inr, true, String, arith, leb}
use web_data_extraction_engi.Domain.{
  JobStatus, completed, failed, ready_for_export, is_allowed, is_active,
}
use web_data_extraction_engi.Domain.Graph.{here, next, is_allowed-live, is_allowed-failed}
use web_data_extraction_engi.Store.{Job}
use web_data_extraction_engi.Store.Jobs.{keep_id}
use web_data_extraction_engi.Service.Columns.{
  Failure, enter, take_lease, release_lease, start_attempt, set_failure, count_attempt,
  raise_progress, request_cancel, count_source_page, count_visited, count_discovered,
  count_extracted, complete_progress, expire_lease, abandon,
}
use web_data_extraction_engi.Invariant.Job.{JobOk, JobStep}
use web_data_extraction_engi.Invariant.Settle.{Mild}

-- a step that leaves the status as it is
stay :
    (j k : Job)
    → (k.id ≡ j.id)
      × (k.project_id ≡ j.project_id)
      × (k.source_id ≡ j.source_id)
      × (k.output_formats ≡ j.output_formats)
      × (k.status ≡ j.status)
    → (j.status_version ≤ k.status_version)
      × (j.attempt ≤ k.attempt)
      × (j.pages_discovered ≤ k.pages_discovered)
      × (j.pages_processed ≤ k.pages_processed)
      × (j.records_found ≤ k.records_found)
      × (j.progress_percent ≤ k.progress_percent)
    → JobStep j k
stay j k e c = record {
  id = e.0;
  project = e.1;
  source = e.2;
  formats = e.3;
  reaches = rw (e.4) here;
  version = c.0;
  attempts = c.1;
  discovered = c.2;
  processed = c.3;
  found = c.4;
  percent = inl c.5;
}

pub Mild-take_lease : (w : String) (until : ℕ) → Mild (take_lease w until)
unfolding take_lease
Mild-take_lease w until = record {
  ok = λ j h. ground arith;
  step = λ j. stay j _ (refl, refl, refl, refl, refl) (omega arith);
}

pub Mild-release_lease : Mild release_lease
unfolding release_lease
Mild-release_lease = record {
  ok = λ j h. ground arith;
  step = λ j. stay j _ (refl, refl, refl, refl, refl) (omega arith);
}

pub Mild-start_attempt : (w : String) (until : ℕ) → Mild (start_attempt w until)
unfolding start_attempt
Mild-start_attempt w until = record {
  ok = λ j h. ground arith;
  step = λ j. stay j _ (refl, refl, refl, refl, refl) (omega arith);
}

pub Mild-set_failure : (e : Failure) → Mild (set_failure e)
unfolding set_failure
Mild-set_failure e = record {
  ok = λ j h. ground arith;
  step = λ j. stay j _ (refl, refl, refl, refl, refl) (omega arith);
}

pub Mild-count_attempt : Mild count_attempt
unfolding count_attempt
Mild-count_attempt = record {
  ok = λ j h. ground arith;
  step = λ j. stay j _ (refl, refl, refl, refl, refl) (omega arith);
}

pub Mild-count_source_page : Mild count_source_page
unfolding count_source_page
Mild-count_source_page = record {
  ok = λ j h. ground arith;
  step = λ j. stay j _ (refl, refl, refl, refl, refl) (omega arith);
}

pub Mild-count_visited : Mild count_visited
unfolding count_visited
Mild-count_visited = record {
  ok = λ j h. ground arith;
  step = λ j. stay j _ (refl, refl, refl, refl, refl) (omega arith);
}

pub Mild-count_discovered : Mild count_discovered
unfolding count_discovered
Mild-count_discovered = record {
  ok = λ j h. ground arith;
  step = λ j. stay j _ (refl, refl, refl, refl, refl) (omega arith);
}

pub Mild-count_extracted : (n : ℕ) → Mild (count_extracted n)
unfolding count_extracted
Mild-count_extracted n = record {
  ok = λ j h. ground arith;
  step = λ j. stay j _ (refl, refl, refl, refl, refl) (omega arith);
}

-- below 100 the progress of a cancelled job stays below 100
pub Mild-raise_progress : (p : ℕ) → leb p 80 ≡ true → Mild (raise_progress p)
unfolding raise_progress
Mild-raise_progress p le = record {
  ok = λ j h. ground arith;
  step = λ j. stay j _ (refl, refl, refl, refl, refl) (omega arith);
}

pub request-JobStep :
    (now principal_id : ℕ) (j : Job) → JobStep j (keep_id (request_cancel now principal_id) j)
unfolding request_cancel
request-JobStep now principal_id j = stay j _ (refl, refl, refl, refl, refl) (omega arith)

pub complete-JobStep :
    (j : Job) → j.progress_percent ≤ 100 → JobStep j (keep_id complete_progress j)
unfolding complete_progress
complete-JobStep j h = stay j _ (refl, refl, refl, refl, refl) (omega arith)

pub Mild-expire_lease : Mild expire_lease
unfolding expire_lease
Mild-expire_lease = record {
  ok = λ j h. ground arith;
  step = λ j. stay j _ (refl, refl, refl, refl, refl) (omega arith);
}

active_failed : (j : Job) → is_active j.status ≡ true → JobOk j → is_allowed j.status failed ≡ true
active_failed j a h = elim (is_allowed-failed j.status a) [
  | inl e ↦ e
  | inr e ↦ absurd (h.not_ready e)
]

-- A job that is active, and in order, may be abandoned.
pub abandon-JobOk :
    (now : ℕ) (j : Job) → is_active j.status ≡ true → JobOk j → JobOk (keep_id (abandon now) j)
unfolding abandon
abandon-JobOk now j a h = ground arith

pub abandon-JobStep :
    (now : ℕ) (j : Job) → is_active j.status ≡ true → JobOk j → JobStep j (keep_id (abandon now) j)
unfolding abandon
abandon-JobStep now j a h = record {
  id = refl;
  project = refl;
  source = refl;
  formats = refl;
  reaches = next here (active_failed j a h);
  version = omega arith;
  attempts = omega arith;
  discovered = omega arith;
  processed = omega arith;
  found = omega arith;
  percent = inl (omega arith);
}

pub ruleset mild_rules = (
  Mild-take_lease, Mild-release_lease, Mild-start_attempt, Mild-set_failure, Mild-count_attempt,
  Mild-count_source_page, Mild-count_visited, Mild-count_discovered, Mild-count_extracted,
  Mild-raise_progress, Mild-expire_lease,
)

-- An allowed change, other than to `ready_for_export` and `completed`, keeps the row in order.
pub enter-JobOk :
    (target : JobStatus) (now : ℕ) (j : Job)
    → is_allowed j.status target ≡ true
    → target ≢ ready_for_export
    → target ≢ completed
    → JobOk j
    → JobOk (keep_id (enter target now) j)
unfolding enter
enter-JobOk target now j a nr nc h = ground (arith, is_allowed-live j.status target a)

pub enter-JobStep :
    (target : JobStatus) (now : ℕ) (j : Job)
    → is_allowed j.status target ≡ true
    → JobStep j (keep_id (enter target now) j)
unfolding enter
enter-JobStep target now j a = record {
  id = refl;
  project = refl;
  source = refl;
  formats = refl;
  reaches = next here a;
  version = omega arith;
  attempts = omega arith;
  discovered = omega arith;
  processed = omega arith;
  found = omega arith;
  percent = ground arith;
}
