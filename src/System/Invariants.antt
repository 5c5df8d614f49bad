-- ===== src/System/Invariants.antt =====
-- What holds after every sequence of calls.
use web_data_extraction_engi.Prelude.{ℕ, ◌≡◌, refl, List, [], ◌∷◌, ◌++◌, Option, none, some, true}
use web_data_extraction_engi.Domain.Graph.{Reaches-terminal, is_terminal}
use web_data_extraction_engi.Store.{Db, Job, Project, ProgressEvent}
use web_data_extraction_engi.Store.Tx.{Tx, Result, ok, err}
use web_data_extraction_engi.Store.Jobs.{find_job}
use web_data_extraction_engi.Invariant.Job.{JobStep}
use web_data_extraction_engi.Invariant.Tables.{
  Valid, RowStep, Evolves, Advance, Advance-refl, Advance-trans,
}
use web_data_extraction_engi.Invariant.Rules.{Keeps, Commits}
use web_data_extraction_engi.Invariant.Lifecycle.{Keeps-cancel}
use web_data_extraction_engi.Invariant.Creation.{Keeps-create_job}
use web_data_extraction_engi.Invariant.Planning.{
  Keeps-claim_planning, Keeps-complete_planning, Keeps-fail_planning,
}
use web_data_extraction_engi.Invariant.Browser.{
  Keeps-prepare_browser_capture, Keeps-complete_browser_capture, Keeps-fail_browser_capture,
}
use web_data_extraction_engi.Invariant.Discovery.{
  Keeps-claim_discovery, Keeps-complete_discovery_page, Keeps-fail_discovery,
}
use web_data_extraction_engi.Invariant.Extraction.{
  Keeps-claim_extraction, Keeps-complete_extraction_page, Keeps-fail_extraction,
}
use web_data_extraction_engi.Invariant.Validation.{
  Keeps-claim_validation, Keeps-complete_validation_run, Keeps-fail_validation,
}
use web_data_extraction_engi.Invariant.Export.{
  Keeps-claim_export, Keeps-complete_export, Keeps-fail_export,
}
use web_data_extraction_engi.Invariant.Recovery.{Keeps-recover_expired_leases}
use web_data_extraction_engi.System.{
  Externals, Call, on_create, on_cancel, on_claim_planning, on_complete_planning, on_fail_planning,
  on_prepare_browser_capture, on_complete_browser_capture, on_fail_browser_capture,
  on_claim_discovery, on_complete_discovery_page, on_fail_discovery, on_claim_extraction,
  on_complete_extraction_page, on_fail_extraction, on_claim_validation, on_complete_validation_run,
  on_fail_validation, on_claim_export, on_complete_export, on_fail_export, on_recover, commit,
  settled, perform, run, initial,
}

Advance-settled :
    {A : Type 0} (s : Db) (r : Result (A × Db)) → Commits s r → Advance s (settled s r)
Advance-settled s (ok (a, t)) h = h
Advance-settled s (err e) h = Advance-refl s

Advance-commit : {A : Type 0} (m : Tx A) (s : Db) → Keeps m → Advance s (commit m s)
unfolding commit
Advance-commit m s k = Advance-settled s (m s) (k.at s)

module _ (x : Externals) (now : ℕ) (s : Db) where
  Advance-perform : (call : Call) → Advance s (perform x now call s)
  unfolding perform
  Advance-perform (on_create r p k j i c) =
      Advance-commit _ s
        (Keeps-create_job x.validate_initial_url x.request_fingerprint r p k j i c now)
  Advance-perform (on_cancel j p c) = Advance-commit _ s (Keeps-cancel j p c now)
  Advance-perform (on_claim_planning c w l) = Advance-commit _ s (Keeps-claim_planning c w l now)
  Advance-perform (on_complete_planning c p h q m) =
      Advance-commit _ s (Keeps-complete_planning c p h q m now)
  Advance-perform (on_fail_planning c e n) = Advance-commit _ s (Keeps-fail_planning c e n now)
  Advance-perform (on_prepare_browser_capture c w) =
      Advance-commit _ s (Keeps-prepare_browser_capture c w now)
  Advance-perform (on_complete_browser_capture c r i) =
      Advance-commit _ s (Keeps-complete_browser_capture c r i now)
  Advance-perform (on_fail_browser_capture c e b) =
      Advance-commit _ s (Keeps-fail_browser_capture c e b now)
  Advance-perform (on_claim_discovery c w l) = Advance-commit _ s (Keeps-claim_discovery c w l now)
  Advance-perform (on_complete_discovery_page op r ids) =
      Advance-commit _ s (Keeps-complete_discovery_page x.rules x.settings op r ids now)
  Advance-perform (on_fail_discovery c e n) = Advance-commit _ s (Keeps-fail_discovery c e n now)
  Advance-perform (on_claim_extraction c w l) =
      Advance-commit _ s (Keeps-claim_extraction c w l now)
  Advance-perform (on_complete_extraction_page op r ids i) =
      Advance-commit _ s (Keeps-complete_extraction_page op r x.server_max_records ids i now)
  Advance-perform (on_fail_extraction c e n) = Advance-commit _ s (Keeps-fail_extraction c e n now)
  Advance-perform (on_claim_validation c w l) =
      Advance-commit _ s (Keeps-claim_validation c w l now)
  Advance-perform (on_complete_validation_run op v k ids) =
      Advance-commit _ s (Keeps-complete_validation_run op v k ids now)
  Advance-perform (on_fail_validation c e n) = Advance-commit _ s (Keeps-fail_validation c e n now)
  Advance-perform (on_claim_export c w l) = Advance-commit _ s (Keeps-claim_export c w l now)
  Advance-perform (on_complete_export op f) = Advance-commit _ s (Keeps-complete_export op f now)
  Advance-perform (on_fail_export c e n) = Advance-commit _ s (Keeps-fail_export c e n now)
  Advance-perform (on_recover uniform) =
      Advance-commit _ s (Keeps-recover_expired_leases uniform now)

pub Advance-run : (x : Externals) (calls : List (ℕ × Call)) (s : Db) → Advance s (run x calls s)
unfolding run
Advance-run x [] s = Advance-refl s
Advance-run x ((now, call) ∷ rest) s =
    Advance-trans (Advance-perform x now s call) (Advance-run x rest (perform x now call s))

initial-Valid : (projects : List Project) → Valid (initial projects)
unfolding find_job
initial-Valid projects = record { job = λ i. tt; numbered = λ i. tt }

-- After every sequence of calls on tables without jobs, each job's row is in order: its progress is
-- at most 100, at most 99 if it is cancelled and 100 if it is completed; `completed_at` is set
-- exactly if its status is terminal; a requested cancellation has made it cancelled; and its status
-- is never READY_FOR_EXPORT. The events of each job are numbered 1, 2, ... in order without a gap.
pub run-Valid :
    (x : Externals) (calls : List (ℕ × Call)) (projects : List Project)
    → Valid (run x calls (initial projects))
run-Valid x calls projects =
    ((Advance-run x calls (initial projects)).at (initial-Valid projects)).0

run-Evolves :
    (x : Externals) (before later : List (ℕ × Call)) (projects : List Project)
    → let s = run x before (initial projects) in Evolves s (run x later s)
run-Evolves x before later projects =
    ((Advance-run x later (run x before (initial projects))).at (run-Valid x before projects)).1

later_row :
    (o : Option Job) (j : Job) → RowStep (some j) o → (k : Job) × ((o ≡ some k) × JobStep j k)
later_row none j h = absurd h
later_row (some k) j h = (k, (refl, h))

-- A job that is there after some calls is there after all later calls. Its status then is reached by
-- a chain of transitions that ALLOWED_TRANSITIONS lists; its project, source and output formats are
-- the same; its version, attempts and counters are at least as large, and so is its progress,
-- unless the job is cancelled.
pub run-JobStep :
    (x : Externals) (before later : List (ℕ × Call)) (projects : List Project) (id : ℕ) (j : Job)
    → find_job id (run x before (initial projects)).jobs ≡ some j
    → (k : Job) × ((find_job id (run x later (run x before (initial projects))).jobs ≡ some k)
        × JobStep j k)
run-JobStep x before later projects id j e =
    later_row _ j (rw e at ((run-Evolves x before later projects).jobs id))

-- A completed, failed or cancelled job keeps its status whatever is called later.
pub run-terminal :
    (x : Externals) (before later : List (ℕ × Call)) (projects : List Project) (id : ℕ) (j : Job)
    → find_job id (run x before (initial projects)).jobs ≡ some j
    → is_terminal j.status ≡ true
    → (k : Job) × ((find_job id (run x later (run x before (initial projects))).jobs ≡ some k)
        × (k.status ≡ j.status))
run-terminal x before later projects id j e t =
    let (k, (f, step)) = run-JobStep x before later projects id j e in
    (k, (f, Reaches-terminal step.reaches t))

-- Later calls append events and change none that is there.
pub run-events :
    (x : Externals) (before later : List (ℕ × Call)) (projects : List Project)
    → let s = run x before (initial projects) in
      (extra : List ProgressEvent) × ((run x later s).events ≡ s.events ++ extra)
run-events x before later projects = (run-Evolves x before later projects).events
