-- ===== src/Invariant/Settle.antt =====
-- Writes to a job's row and to the event log keep the invariant.
use web_data_extraction_engi.Prelude.{
  ℕ, ◌+◌, ◌≡◌, refl, true, List, [], ◌∷◌, ◌++◌, Option, none, some, String, ◌==◌, arith, Bool-cases,
  inl, inr, ==_iff,
}
use web_data_extraction_engi.Domain.{JobStatus}
use web_data_extraction_engi.Store.{Db, Job, ProgressEvent}
use web_data_extraction_engi.Store.Jobs.{
  find_job, update_job, modify_job, keep_id, map_row, find_job-update_job,
}
use web_data_extraction_engi.Store.Events.{
  append_event, events_of, events_of-append, max_sequence, max_sequence-IsNumbered, IsNumbered,
  IsNumbered-append,
}
use web_data_extraction_engi.Invariant.Job.{JobOk, JobStep}
use web_data_extraction_engi.Invariant.Tables.{RowOk, RowStep, RowStep-refl, Advance}
use web_data_extraction_engi.Invariant.Rules.{Keeps}
use mathlib.Core.List.{append-nil}
use mathlib.Core.Path.{subst}

-- A write to a row that keeps it in order and goes on from it.
pub record Mild (f : Job → Job) : Type 0 where
  pub ok : (j : Job) → JobOk j → JobOk (keep_id f j)
  pub step : (j : Job) → JobStep j (keep_id f j)

-- The write at the row that is there, whatever it is elsewhere.
abbrev pub MildAt : Option Job → (Job → Job) → Type 0
MildAt none f = Unit
MildAt (some j) f = JobOk j → JobOk (keep_id f j) × JobStep j (keep_id f j)

RowOk-map_row : (f : Job → Job) (o : Option Job) → MildAt o f → RowOk o → RowOk (map_row f o)
RowOk-map_row f none m h = tt
RowOk-map_row f (some j) m h = (m h).0

RowStep-map_row : (f : Job → Job) (o : Option Job) → MildAt o f → RowOk o → RowStep o (map_row f o)
RowStep-map_row f none m h = tt
RowStep-map_row f (some j) m h = (m h).1

module _ (k : ℕ) (f : Job → Job) (s : Db) (mild : MildAt (find_job k s.jobs) f) where
  mild_at : (i : ℕ) → (k == i) ≡ true → MildAt (find_job i s.jobs) f
  mild_at i e = subst (λ n. MildAt (find_job n s.jobs) f) ((==_iff k i).0 e) mild

  row_ok : (i : ℕ) → RowOk (find_job i s.jobs) → RowOk (find_job i (update_job k f s.jobs))
  row_ok i h = elim (Bool-cases (k == i)) [
    | inl e ↦ rw (find_job-update_job, e) (RowOk-map_row f (find_job i s.jobs) (mild_at i e) h)
    | inr e ↦ rw (find_job-update_job, e) h
  ]

  row_step :
      (i : ℕ)
      → RowOk (find_job i s.jobs)
      → RowStep (find_job i s.jobs) (find_job i (update_job k f s.jobs))
  row_step i h = elim (Bool-cases (k == i)) [
    | inl e ↦ rw (find_job-update_job, e) (RowStep-map_row f (find_job i s.jobs) (mild_at i e) h)
    | inr e ↦ rw (find_job-update_job, e) (RowStep-refl (find_job i s.jobs))
  ]

IsNumbered-next :
    (i : ℕ) (events : List ProgressEvent) (e : ProgressEvent)
    → e.sequence_no ≡ max_sequence (events_of e.job_id events) + 1
    → IsNumbered 0 (events_of i events)
    → IsNumbered 0 (events_of i (events ++ e ∷ []))
IsNumbered-next i events e p h = elim (Bool-cases (e.job_id == i)) [
  | inl q ↦
      rw (events_of-append, q)
        (IsNumbered-append 0 (events_of i events) e h (
          omega (
            arith,
            max_sequence-IsNumbered 0 (events_of i events) h,
            subst (λ n. e.sequence_no ≡ max_sequence (events_of n events) + 1)
                ((==_iff e.job_id i).0 q) p,
          )))
  | inr q ↦ rw (events_of-append, q, append-nil) h
]

-- the row is written and an event appended
pub Advance-settle :
    (s : Db) (k : ℕ) (f : Job → Job) (e : ProgressEvent)
    → MildAt (find_job k s.jobs) f
    → e.sequence_no ≡ max_sequence (events_of e.job_id s.events) + 1
    → Advance s (record s { jobs = update_job k f s.jobs; events = s.events ++ e ∷ [] })
Advance-settle s k f e m p = record {
  at = λ v. (
    record {
      job = λ i. row_ok k f s m i (v.job i);
      numbered = λ i. IsNumbered-next i s.events e p (v.numbered i);
    },
    record { jobs = λ i. row_step k f s m i (v.job i); events = (e ∷ [], refl) },
  );
}

-- the row alone is written
Advance-update_job :
    (s : Db) (k : ℕ) (f : Job → Job)
    → MildAt (find_job k s.jobs) f
    → Advance s (record s { jobs = update_job k f s.jobs })
Advance-update_job s k f m = record {
  at = λ v. (
    record { job = λ i. row_ok k f s m i (v.job i); numbered = v.numbered },
    record { jobs = λ i. row_step k f s m i (v.job i); events = ([], rw append-nil) },
  );
}

MildAt-Mild : (f : Job → Job) (o : Option Job) → Mild f → MildAt o f
MildAt-Mild f none m = tt
MildAt-Mild f (some j) m = λ h. (m.ok j h, m.step j)

pub Keeps-modify_job : (k : ℕ) (f : Job → Job) → Mild f → Keeps (modify_job k f)
unfolding modify_job
Keeps-modify_job k f m = record {
  at = λ s. Advance-update_job s k f (MildAt-Mild f (find_job k s.jobs) m);
}

pub Keeps-append_event :
    (k : ℕ) (event_type : String) (stage : JobStatus) (percent : Option ℕ) (correlation_id : ℕ)
    → Keeps (append_event k event_type stage percent correlation_id)
unfolding append_event
Keeps-append_event k event_type stage percent correlation_id = record {
  at = λ s. record {
    at = λ v. (
      record { job = v.job; numbered = λ i. IsNumbered-next i s.events _ refl (v.numbered i) },
      record { jobs = λ i. RowStep-refl (find_job i s.jobs); events = (_, refl) },
    );
  };
}
