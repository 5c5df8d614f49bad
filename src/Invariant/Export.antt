-- ===== src/Invariant/Export.antt =====
-- The export methods keep the invariant.
use web_data_extraction_engi.Prelude.{ℕ, String, arith}
use web_data_extraction_engi.Domain.{completed, exporting}
use web_data_extraction_engi.Domain.Graph.{is_allowed-live}
use web_data_extraction_engi.Store.{Command}
use web_data_extraction_engi.Store.Jobs.{keep_id}
use web_data_extraction_engi.Service.Columns.{Failure, enter, complete_progress}
use web_data_extraction_engi.Service.Export.{
  ExportOperation, StoredFile, claim_export, export_cancelled, complete_job, complete_export,
  fail_export,
}
use web_data_extraction_engi.Invariant.Job.{JobStep-trans}
use web_data_extraction_engi.Invariant.Rules.{Keeps}
use web_data_extraction_engi.Invariant.Columns.{enter-JobStep, complete-JobStep}
use web_data_extraction_engi.Invariant.Lifecycle.{Joint, Keeps-joint, service_rules}
use web_data_extraction_engi.Invariant.Validation.{Keeps-writer_for}

pub Keeps-claim_export :
    (c : Command) (worker_id : String) (lease_ms now : ℕ)
    → Keeps (claim_export c worker_id lease_ms now)
unfolding claim_export
Keeps-claim_export c worker_id lease_ms now = search service_rules depth 30

pub Keeps-export_cancelled : (op : ExportOperation) → Keeps (export_cancelled op)
unfolding export_cancelled
Keeps-export_cancelled op = search service_rules

-- The full progress and the completion together keep the row in order.
complete-Joint :
    (k correlation_id now : ℕ) → Joint k exporting completed correlation_id now complete_progress
unfolding enter complete_progress
complete-Joint k correlation_id now j a h = (
  ground (arith, is_allowed-live j.status completed a),
  JobStep-trans (complete-JobStep j h.percent)
      (enter-JobStep completed now (keep_id complete_progress j) a),
)

Keeps-complete_job : (k correlation_id now : ℕ) → Keeps (complete_job k correlation_id now)
unfolding complete_job
Keeps-complete_job k correlation_id now =
    Keeps-joint k exporting completed correlation_id now complete_progress
      (complete-Joint k correlation_id now)

pub Keeps-complete_export :
    (op : ExportOperation) (file : StoredFile) (now : ℕ) → Keeps (complete_export op file now)
unfolding complete_export
Keeps-complete_export op file now =
    search (service_rules, Keeps-writer_for, Keeps-complete_job) depth 30

pub Keeps-fail_export :
    (c : Command) (e : Failure) (max_attempts now : ℕ) → Keeps (fail_export c e max_attempts now)
unfolding fail_export
Keeps-fail_export c e max_attempts now = search service_rules depth 30
