-- ===== src/Invariant/Job.antt =====
-- What holds of a job's row between two transactions, and how the row may change.
use web_data_extraction_engi.Prelude.{◌≤◌, ◌≡◌, ◌≢◌, refl, ◌⊎◌, inl, inr, true, is_some, arith}
use web_data_extraction_engi.Domain.{completed, cancelled, ready_for_export}
use web_data_extraction_engi.Domain.Graph.{
  Reaches, here, Reaches-trans, Reaches-terminal, is_terminal,
}
use web_data_extraction_engi.Store.{Job}

pub record JobOk (j : Job) : Type 0 where
  pub percent : j.progress_percent ≤ 100
  pub cancelled_percent : j.status ≡ cancelled → j.progress_percent ≤ 99
  pub completed_percent : j.status ≡ completed → j.progress_percent ≡ 100
  -- `completed_at` is set exactly in the terminal states
  pub finished : is_some j.completed_at ≡ is_terminal j.status
  -- a requested cancellation has already taken effect
  pub cancel_done : is_some j.cancel_requested_at ≡ true → j.status ≡ cancelled
  -- no service enters this state
  pub not_ready : j.status ≢ ready_for_export

-- The row `k` is a later version of the row `j`.
pub record JobStep (j k : Job) : Type 0 where
  pub id : k.id ≡ j.id
  pub project : k.project_id ≡ j.project_id
  pub source : k.source_id ≡ j.source_id
  pub formats : k.output_formats ≡ j.output_formats
  pub reaches : Reaches j.status k.status
  pub version : j.status_version ≤ k.status_version
  pub attempts : j.attempt ≤ k.attempt
  pub discovered : j.pages_discovered ≤ k.pages_discovered
  pub processed : j.pages_processed ≤ k.pages_processed
  pub found : j.records_found ≤ k.records_found
  pub percent : (j.progress_percent ≤ k.progress_percent) ⊎ (k.status ≡ cancelled)

pub JobStep-refl : (j : Job) → JobStep j j
JobStep-refl j = record {
  id = refl;
  project = refl;
  source = refl;
  formats = refl;
  reaches = here;
  version = omega arith;
  attempts = omega arith;
  discovered = omega arith;
  processed = omega arith;
  found = omega arith;
  percent = inl (omega arith);
}

percent_trans :
    (j k l : Job)
    → JobStep j k
    → JobStep k l
    → (j.progress_percent ≤ l.progress_percent) ⊎ (l.status ≡ cancelled)
percent_trans j k l p q = elim p.percent [
  | inl a ↦ elim q.percent [ inl b ↦ inl (omega arith) | inr e ↦ inr e ]
  | inr e ↦ inr (cc (Reaches-terminal q.reaches (cc e)))
]

pub JobStep-trans : {j k l : Job} → JobStep j k → JobStep k l → JobStep j l
JobStep-trans {j} {k} {l} p q = record {
  id = cc (p.id, q.id);
  project = cc (p.project, q.project);
  source = cc (p.source, q.source);
  formats = cc (p.formats, q.formats);
  reaches = Reaches-trans p.reaches q.reaches;
  version = omega (arith, p.version, q.version);
  attempts = omega (arith, p.attempts, q.attempts);
  discovered = omega (arith, p.discovered, q.discovered);
  processed = omega (arith, p.processed, q.processed);
  found = omega (arith, p.found, q.found);
  percent = percent_trans j k l p q;
}
