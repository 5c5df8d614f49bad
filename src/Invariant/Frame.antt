-- ===== src/Invariant/Frame.antt =====
-- Transactions that write neither the jobs nor the events.
use web_data_extraction_engi.Prelude.{ℕ, ◌≡◌, refl, Bool, true, false, [], if◌then◌else◌}
use web_data_extraction_engi.Store.{
  Db, Source, ExtractionPlan, Page, BrowserArtifact, Record, ValidationRun, ValidationResult,
  ExportJob, GeneratedFile, IdempotencyKey, CommandType, Command,
}
use web_data_extraction_engi.Store.Tx.{Result, ok, err, integrity_error}
use web_data_extraction_engi.Store.Tables.{
  add_source, add_plan, add_page, add_artifact, add_run, add_result, add_export, add_file, add_key,
  add_work, try_add_record, modify_page, modify_run, modify_export,
}
use web_data_extraction_engi.Store.Jobs.{find_job}
use web_data_extraction_engi.Invariant.Tables.{Advance, RowStep-refl}
use web_data_extraction_engi.Invariant.Rules.{Keeps, Commits}
use mathlib.Core.List.{append-nil}

abbrev SameJobs : Db → Db → Type 0
SameJobs s t = (t.jobs ≡ s.jobs) × (t.events ≡ s.events)

Advance-frame : (s t : Db) → SameJobs s t → Advance s t
Advance-frame s t (p, q) = record {
  at = λ v. (
    record { job = rw p v.job; numbered = rw q v.numbered },
    record {
      jobs = rw p (λ i. RowStep-refl (find_job i s.jobs));
      events = ([], rw (q, append-nil));
    },
  );
}

abbrev pub refused : Result (Unit {0} × Db)
refused = err integrity_error

-- an insertion that a constraint may refuse
Commits-insert :
    (s t : Db) (clash : Bool) → SameJobs s t → Commits s (if clash then refused else ok (tt, t))
Commits-insert s t true h = tt
Commits-insert s t false h = Advance-frame s t h

pub Keeps-add_source : (r : Source) → Keeps (add_source r)
unfolding add_source
Keeps-add_source r = record { at = λ s. Commits-insert s _ _ (refl, refl) }

pub Keeps-add_plan : (r : ExtractionPlan) → Keeps (add_plan r)
unfolding add_plan
Keeps-add_plan r = record { at = λ s. Commits-insert s _ _ (refl, refl) }

pub Keeps-add_page : (r : Page) → Keeps (add_page r)
unfolding add_page
Keeps-add_page r = record { at = λ s. Commits-insert s _ _ (refl, refl) }

pub Keeps-add_artifact : (r : BrowserArtifact) → Keeps (add_artifact r)
unfolding add_artifact
Keeps-add_artifact r = record { at = λ s. Commits-insert s _ _ (refl, refl) }

pub Keeps-add_run : (r : ValidationRun) → Keeps (add_run r)
unfolding add_run
Keeps-add_run r = record { at = λ s. Commits-insert s _ _ (refl, refl) }

pub Keeps-add_result : (r : ValidationResult) → Keeps (add_result r)
unfolding add_result
Keeps-add_result r = record { at = λ s. Commits-insert s _ _ (refl, refl) }

pub Keeps-add_export : (r : ExportJob) → Keeps (add_export r)
unfolding add_export
Keeps-add_export r = record { at = λ s. Commits-insert s _ _ (refl, refl) }

pub Keeps-add_file : (r : GeneratedFile) → Keeps (add_file r)
unfolding add_file
Keeps-add_file r = record { at = λ s. Commits-insert s _ _ (refl, refl) }

pub Keeps-add_key : (r : IdempotencyKey) → Keeps (add_key r)
unfolding add_key
Keeps-add_key r = record { at = λ s. Commits-insert s _ _ (refl, refl) }

pub Keeps-add_work :
    (t : CommandType) (c : Command) (attempt available_at now : ℕ)
    → Keeps (add_work t c attempt available_at now)
unfolding add_work
Keeps-add_work t c attempt available_at now = record { at = λ s. Commits-insert s _ _ (refl, refl) }

Commits-try :
    (s t : Db) (clash : Bool)
    → SameJobs s t
    → Commits s (if clash then ok (false, s) else ok (true, t))
Commits-try s t true h = Advance-frame s s (refl, refl)
Commits-try s t false h = Advance-frame s t h

pub Keeps-try_add_record : (r : Record) → Keeps (try_add_record r)
unfolding try_add_record
Keeps-try_add_record r = record { at = λ s. Commits-try s _ _ (refl, refl) }

pub Keeps-modify_page : (id : ℕ) (f : Page → Page) → Keeps (modify_page id f)
unfolding modify_page
Keeps-modify_page id f = record { at = λ s. Advance-frame s _ (refl, refl) }

pub Keeps-modify_run : (id : ℕ) (f : ValidationRun → ValidationRun) → Keeps (modify_run id f)
unfolding modify_run
Keeps-modify_run id f = record { at = λ s. Advance-frame s _ (refl, refl) }

pub Keeps-modify_export : (id : ℕ) (f : ExportJob → ExportJob) → Keeps (modify_export id f)
unfolding modify_export
Keeps-modify_export id f = record { at = λ s. Advance-frame s _ (refl, refl) }

pub ruleset frame_rules = (
  Keeps-add_source, Keeps-add_plan, Keeps-add_page, Keeps-add_artifact, Keeps-add_run,
  Keeps-add_result, Keeps-add_export, Keeps-add_file, Keeps-add_key, Keeps-add_work,
  Keeps-try_add_record, Keeps-modify_page, Keeps-modify_run, Keeps-modify_export,
)
