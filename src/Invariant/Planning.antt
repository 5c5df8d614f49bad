-- ===== src/Invariant/Planning.antt =====
-- The planning methods keep the invariant.
use web_data_extraction_engi.Prelude.{ℕ, String}
use web_data_extraction_engi.Store.{Command, CanonicalPlan}
use web_data_extraction_engi.Service.Columns.{Failure}
use web_data_extraction_engi.Service.Planning.{claim_planning, complete_planning, fail_planning}
use web_data_extraction_engi.Invariant.Rules.{Keeps}
use web_data_extraction_engi.Invariant.Lifecycle.{service_rules}

pub Keeps-claim_planning :
    (c : Command) (worker_id : String) (lease_ms now : ℕ)
    → Keeps (claim_planning c worker_id lease_ms now)
unfolding claim_planning
Keeps-claim_planning c worker_id lease_ms now = search service_rules depth 20

pub Keeps-complete_planning :
    (c : Command) (plan : CanonicalPlan) (hash provider model : String) (now : ℕ)
    → Keeps (complete_planning c plan hash provider model now)
unfolding complete_planning
Keeps-complete_planning c plan hash provider model now = search service_rules depth 20

pub Keeps-fail_planning :
    (c : Command) (e : Failure) (max_retries now : ℕ) → Keeps (fail_planning c e max_retries now)
unfolding fail_planning
Keeps-fail_planning c e max_retries now = search service_rules depth 20
