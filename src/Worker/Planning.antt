-- ===== src/Worker/Planning.antt =====
-- worker.py: `run_planning`.
use web_data_extraction_engi.Prelude.{ℕ, String, maybe}
use web_data_extraction_engi.Store.{Db, Command, CanonicalPlan}
use web_data_extraction_engi.Service.Columns.{Failure}
use web_data_extraction_engi.Service.Planning.{
  PlanningOperation, claim_planning, complete_planning, fail_planning,
}
use web_data_extraction_engi.Worker.{WorkerConfig, Answer, done, session, retry_or_done}
use web_data_extraction_engi.Worker.Errors.{PlannerError, planner_failure, unavailable}

-- what `planner.create_plan` does: a plan, a `PlannerError` with its message, another exception
pub data Planning : Type 0 where
  planned : CanonicalPlan → Planning
  refused : PlannerError → String → Planning
  crashed : Planning

-- `PlannerService`, with the names of its model and the hash of a plan
pub record Planner : Type 0 where
  pub create_plan : PlanningOperation → Planning
  pub plan_hash : CanonicalPlan → String
  pub provider_name : String
  pub model_name : String

module _ (w : WorkerConfig) (planner : Planner) (command : Command) where
  unfoldable pub report_planning_failure : Failure → ℕ → Db → Answer × Db
  report_planning_failure error finish db =
      session (fail_planning command error w.planner_max_retries finish) db
        λ retry t. (retry_or_done w retry, t)

  unfoldable pub conclude_planning : Planning → ℕ → Db → Answer × Db
  unfolding report_planning_failure
  conclude_planning (planned plan) finish db =
      session
        (complete_planning command plan (planner.plan_hash plan) planner.provider_name
          planner.model_name finish)
        db λ completed t. (done, t)
  conclude_planning (refused e message) finish db =
      report_planning_failure (planner_failure e message) finish db
  conclude_planning crashed finish db =
      report_planning_failure (planner_failure unavailable "Planner operation failed safely.")
        finish db

  -- `meanwhile` is what others commit while the planner works
  unfoldable pub run_planning : (Db → Db) → ℕ → ℕ → Db → Answer × Db
  unfolding conclude_planning
  run_planning meanwhile start finish db =
      session (claim_planning command w.worker_id w.worker_lease_ms start) db λ claimed t.
        maybe claimed (done, t)
          λ op. conclude_planning (planner.create_plan op) finish (meanwhile t)
