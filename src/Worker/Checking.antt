-- ===== src/Worker/Checking.antt =====
-- worker.py: `run_validation`.
use web_data_extraction_engi.Prelude.{ℕ, String, maybe}
use web_data_extraction_engi.Store.{Db, Command, Record}
use web_data_extraction_engi.Store.Tx.{Result, ok, err}
use web_data_extraction_engi.Service.Validation.{
  ValidationOperation, Verdict, claim_validation, complete_validation_run, fail_validation,
}
use web_data_extraction_engi.Worker.{WorkerConfig, Answer, done, session, retry_or_done}
use web_data_extraction_engi.Worker.Errors.{validation_infrastructure}

module _ (w : WorkerConfig) (command : Command) where
  -- every exception of the second transaction is reported as one of the infrastructure; the
  -- services raise no `ValidationEngineError`
  unfoldable pub conclude_validation : Result (Unit {0} × Db) → ℕ → Db → Answer × Db
  conclude_validation (ok (u, t)) finish db = (done, t)
  conclude_validation (err e) finish db =
      session (fail_validation command validation_infrastructure 2 finish) db
        λ retry t. (retry_or_done w retry, t)

  unfoldable pub run_validation :
      (ValidationOperation → Record → Verdict)
      → (Db → Db)
      → String
      → (ℕ → ℕ)
      → ℕ
      → ℕ
      → Db
      → Answer × Db
  unfolding conclude_validation
  run_validation validate meanwhile request_key ids start finish db =
      session (claim_validation command w.worker_id w.worker_lease_ms start) db λ claimed t.
        maybe claimed (done, t)
          λ op.
            conclude_validation
              (complete_validation_run op (validate op) request_key ids finish (meanwhile t)) finish
              (meanwhile t)
