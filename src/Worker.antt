-- ===== src/Worker.antt =====
-- services/api/src/wde_api/worker.py: the handlers of the queue's jobs. Each handler makes some
-- transactions of `JobService` one after another and calls an engine between them; what others commit
-- during that call is an argument. The engines' answers are arguments too.
pub mod Errors
pub mod Planning
pub mod Pages
pub mod Checking
pub mod Export
pub mod Handlers
pub mod Retries
pub mod Failures
pub mod Orphans
use web_data_extraction_engi.Prelude.{ℕ, Option, String, maybe}
use web_data_extraction_engi.Domain.{retry_delay}
use web_data_extraction_engi.Store.{Db}
use web_data_extraction_engi.Store.Tx.{Tx, Result, Error, ok, err}
use web_data_extraction_engi.Service.Columns.{Failure}

-- what the handlers read of the settings, the host's name and the random part of a delay
pub record WorkerConfig : Type 0 where
  pub worker_id : String
  pub worker_lease_ms : ℕ
  pub planner_max_retries : ℕ
  pub extraction_max_retries : ℕ
  pub extraction_max_records : ℕ
  pub extraction_max_document_chars : ℕ
  pub extraction_max_document_items : ℕ
  pub export_max_retries : ℕ
  pub export_max_records : ℕ
  pub export_max_bytes : ℕ
  pub artifact_retention_ms : ℕ
  pub uniform : ℕ → ℕ

-- how a handler ends: it returns, it raises `Retry(defer=...)`, an exception of a service method
-- leaves it, or one of an engine
pub data Answer : Type 0 where
  done : Answer
  retry_after : ℕ → Answer
  raised : Error → Answer
  uncaught : Failure → Answer

abbrev pub proceed : {A : Type 0} → Db → Result (A × Db) → (A → Db → Answer × Db) → Answer × Db
proceed db (ok (a, t)) next = next a t
proceed db (err e) next = (raised e, db)

-- `async with session.begin()`, and what follows it
unfoldable pub session : {A : Type 0} → Tx A → Db → (A → Db → Answer × Db) → Answer × Db
session m db next = proceed db (m db) next

-- `if retry_attempt is not None: raise Retry(defer=retry_delay_seconds(retry_attempt))`
abbrev pub retry_or_done : WorkerConfig → Option ℕ → Answer
retry_or_done w retry_attempt =
    maybe retry_attempt done (λ attempt. retry_after (retry_delay w.uniform attempt))
