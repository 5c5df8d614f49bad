-- ===== src/Worker/Handlers/Phases.antt =====
-- worker.py: which calls close the work of planning and of validation.
use web_data_extraction_engi.Prelude.{ℕ, ◌≡◌, refl, List, String}
use web_data_extraction_engi.Store.{Db, Command}
use web_data_extraction_engi.Store.Tx.{Result, ok, err}
use web_data_extraction_engi.System.{
  Externals, Call, run, perform, commit, settled, on_claim_planning, on_complete_planning,
  on_fail_planning, on_claim_validation, on_complete_validation_run, on_fail_validation,
}
use web_data_extraction_engi.Worker.{WorkerConfig, done}
use web_data_extraction_engi.Worker.Planning.{
  Planner, Planning, planned, refused, crashed, conclude_planning, report_planning_failure,
}
use web_data_extraction_engi.Worker.Planning
use web_data_extraction_engi.Service.Planning.{claim_planning}
use web_data_extraction_engi.Worker.Checking.{conclude_validation}
use web_data_extraction_engi.Worker.Checking
use web_data_extraction_engi.Worker.Errors.{unavailable, planner_failure, validation_infrastructure}
use web_data_extraction_engi.Worker.{retry_or_done}
use web_data_extraction_engi.Store.{Record}
use web_data_extraction_engi.Service.Validation.{
  claim_validation, ValidationOperation, Verdict, complete_validation_run,
}
use web_data_extraction_engi.Prelude.{[], ◌∷◌}
use web_data_extraction_engi.Worker.Handlers.Calls.{
  raises, unless_uncaught, session-run, protocol, claimed-run,
}

module _ (x : Externals) (w : WorkerConfig) (others : List (ℕ × Call)) (start finish : ℕ)
    (command : Command) where
  -- a plan is stored, everything else is a failure of planning
  abbrev pub close_planning : Planner → Planning → List (ℕ × Call)
  close_planning planner (planned plan) =
      (
        finish,
        on_complete_planning command plan (planner.plan_hash plan) planner.provider_name
            planner.model_name,
      )
      ∷ []
  close_planning planner (refused e message) =
      (finish, on_fail_planning command (planner_failure e message) w.planner_max_retries) ∷ []
  close_planning planner crashed =
      (
        finish,
        on_fail_planning command (planner_failure unavailable "Planner operation failed safely.")
            w.planner_max_retries,
      )
      ∷ []

  close_planning-run :
      (planner : Planner) (answer : Planning) (t : Db)
      → (conclude_planning w planner command answer finish t).1
        ≡ run x (close_planning planner answer) t
  unfolding conclude_planning report_planning_failure perform
  close_planning-run planner (planned plan) t = session-run x finish _ _ (λ a. done) t refl
  close_planning-run planner (refused e message) t =
      session-run x finish _ _ (λ retry. retry_or_done w retry) t refl
  close_planning-run planner crashed t =
      session-run x finish _ _ (λ retry. retry_or_done w retry) t refl

  abbrev pub planning_calls : Planner → Db → List (ℕ × Call)
  planning_calls planner =
      protocol x others start (on_claim_planning command w.worker_id w.worker_lease_ms)
        (claim_planning command w.worker_id w.worker_lease_ms start)
        (λ op t. close_planning planner (planner.create_plan op))

  pub run_planning-calls :
      (planner : Planner) (s : Db)
      → (Planning.run_planning w planner command (run x others) start finish s).1
        ≡ run x (planning_calls planner s) s
  unfolding Planning.run_planning perform
  run_planning-calls planner s =
      claimed-run x others start _ _ _
        (λ op t. conclude_planning w planner command (planner.create_plan op) finish t) s refl
        (λ op t. close_planning-run planner (planner.create_plan op) t)

  -- the verdicts are stored; when that raises, a failure is reported
  abbrev pub close_validation :
      (ValidationOperation → Record → Verdict)
      → String
      → (ℕ → ℕ)
      → ValidationOperation
      → Db
      → List (ℕ × Call)
  close_validation validate key ids op t =
      (finish, on_complete_validation_run op (validate op) key ids)
      ∷ unless_uncaught (raises (complete_validation_run op (validate op) key ids finish t)) finish
          (on_fail_validation command validation_infrastructure 2)

  report-run :
      (r : Result (Unit {0} × Db)) (t : Db)
      → (conclude_validation w command r finish t).1
        ≡ run x
            (unless_uncaught
              (raises r)
              finish
              (on_fail_validation command validation_infrastructure 2))
            (settled t r)
  unfolding conclude_validation run perform
  report-run (ok (u, v)) t = refl
  report-run (err e) t =
      session-run x finish (on_fail_validation command validation_infrastructure 2) _
        (λ retry. retry_or_done w retry) t refl

  close_validation-run :
      (op : ValidationOperation) (validate : ValidationOperation → Record → Verdict) (key : String)
      (ids : ℕ → ℕ) (t : Db)
      → (conclude_validation w command
          (complete_validation_run op (validate op) key ids finish t)
          finish
          t).1
        ≡ run x (close_validation validate key ids op t) t
  unfolding run perform commit
  close_validation-run op validate key ids t =
      report-run (complete_validation_run op (validate op) key ids finish t) t

  abbrev pub validation_calls :
      (ValidationOperation → Record → Verdict) → String → (ℕ → ℕ) → Db → List (ℕ × Call)
  validation_calls validate key ids =
      protocol x others start (on_claim_validation command w.worker_id w.worker_lease_ms)
        (claim_validation command w.worker_id w.worker_lease_ms start)
        (close_validation validate key ids)

  pub run_validation-calls :
      (validate : ValidationOperation → Record → Verdict) (key : String) (ids : ℕ → ℕ) (s : Db)
      → (Checking.run_validation w command validate (run x others) key ids start finish s).1
        ≡ run x (validation_calls validate key ids s) s
  unfolding Checking.run_validation perform
  run_validation-calls validate key ids s =
      claimed-run x others start _ _ _
        (λ op t.
          conclude_validation w command (complete_validation_run op (validate op) key ids finish t)
            finish t)
        s refl (λ op t. close_validation-run op validate key ids t)
