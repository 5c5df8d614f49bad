-- ===== src/Invariant/Tables.antt =====
-- The invariant of the tables, and what one transaction may change of them.
use web_data_extraction_engi.Prelude.{ℕ, ◌≡◌, Option, none, some, List, [], ◌++◌}
use web_data_extraction_engi.Store.{Db, Job, ProgressEvent}
use web_data_extraction_engi.Store.Jobs.{find_job}
use web_data_extraction_engi.Store.Events.{IsNumbered, events_of}
use web_data_extraction_engi.Invariant.Job.{JobOk, JobStep, JobStep-refl, JobStep-trans}
use mathlib.Core.List.{append_assoc, append-nil}

abbrev pub RowOk : Option Job → Type 0
RowOk none = Unit
RowOk (some j) = JobOk j

-- The rows of the jobs are in order, and the events of each job are numbered from 1 without a gap.
pub record Valid (db : Db) : Type 0 where
  pub job : (i : ℕ) → RowOk (find_job i db.jobs)
  pub numbered : (i : ℕ) → IsNumbered 0 (events_of i db.events)

-- A row may appear, and a row that is there goes on.
abbrev pub RowStep : Option Job → Option Job → Type 0
RowStep none o = Unit
RowStep (some j) none = ⊥
RowStep (some j) (some k) = JobStep j k

pub record Evolves (s t : Db) : Type 0 where
  pub jobs : (i : ℕ) → RowStep (find_job i s.jobs) (find_job i t.jobs)
  -- events are appended and never changed
  pub events : (extra : List ProgressEvent) × (t.events ≡ s.events ++ extra)

pub RowStep-refl : (o : Option Job) → RowStep o o
RowStep-refl none = tt
RowStep-refl (some j) = JobStep-refl j

RowStep-trans : (a b c : Option Job) → RowStep a b → RowStep b c → RowStep a c
RowStep-trans none b c p q = tt
RowStep-trans (some j) none c p q = absurd p
RowStep-trans (some j) (some k) none p q = q
RowStep-trans (some j) (some k) (some l) p q = JobStep-trans p q

pub Evolves-refl : (s : Db) → Evolves s s
Evolves-refl s = record {
  jobs = λ i. RowStep-refl (find_job i s.jobs);
  events = ([], rw append-nil);
}

pub Evolves-trans : {s t u : Db} → Evolves s t → Evolves t u → Evolves s u
Evolves-trans {s} {t} {u} p q = record {
  jobs = λ i.
      RowStep-trans (find_job i s.jobs) (find_job i t.jobs) (find_job i u.jobs) (p.jobs i)
        (q.jobs i);
  events = (p.events.0 ++ q.events.0, rw (q.events.1, p.events.1, append_assoc));
}

-- From a valid store, the transaction leads to a valid one by allowed changes only.
pub record Advance (s t : Db) : Type 0 where
  pub at : Valid s → Valid t × Evolves s t

pub Advance-refl : (s : Db) → Advance s s
Advance-refl s = record { at = λ v. (v, Evolves-refl s) }

pub Advance-trans : {s t u : Db} → Advance s t → Advance t u → Advance s u
Advance-trans p q = record {
  at = λ v. let (v', e) = p.at v in let (v'', e') = q.at v' in (v'', Evolves-trans e e');
}
