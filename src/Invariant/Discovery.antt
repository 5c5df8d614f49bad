-- ===== src/Invariant/Discovery.antt =====
-- The discovery methods keep the invariant.
use web_data_extraction_engi.Prelude.{ℕ, Bool, String, List, [], ◌∷◌, Option, none, some}
use web_data_extraction_engi.Store.{Job, Command, Page, PageStatus, DiscoveryMethod}
use web_data_extraction_engi.Discovery.{Settings, UrlRules, DiscoveryCandidate}
use web_data_extraction_engi.Service.Columns.{Failure}
use web_data_extraction_engi.Service.Browser.{BrowserOperationResult}
use web_data_extraction_engi.Service.Inventory.{
  Inventory, announce, persist_candidate, persist_from, persist_candidates,
}
use web_data_extraction_engi.Service.Discovery.{
  DiscoveryOperation, claim_discovery, queue_discovery_page, continue_discovery, extend_inventory,
  complete_discovery_page, mark_page, fail_discovery,
}
use web_data_extraction_engi.Invariant.Rules.{Keeps, Keeps-bind}
use web_data_extraction_engi.Invariant.Lifecycle.{service_rules}

pub Keeps-claim_discovery :
    (c : Command) (worker_id : String) (lease_ms now : ℕ)
    → Keeps (claim_discovery c worker_id lease_ms now)
unfolding claim_discovery
Keeps-claim_discovery c worker_id lease_ms now = search service_rules depth 30

Keeps-announce :
    (inv : Inventory) (status : PageStatus) (method : DiscoveryMethod) (n : ℕ)
    → Keeps (announce inv status method n)
unfolding announce
Keeps-announce inv PageStatus.discovered method n = search service_rules
Keeps-announce inv _ method n = search service_rules

Keeps-persist_candidate :
    (inv : Inventory) (rejected : Bool) (c : DiscoveryCandidate) (n : ℕ)
    → Keeps (persist_candidate inv rejected c n)
unfolding persist_candidate
Keeps-persist_candidate inv rejected c n = search (service_rules, Keeps-announce) depth 30

Keeps-persist_from :
    (inv : Inventory) (rejected : Bool) (l : List DiscoveryCandidate) (n : ℕ)
    → Keeps (persist_from inv rejected l n)
unfolding persist_from
Keeps-persist_from inv rejected [] n = search service_rules
Keeps-persist_from inv rejected (c ∷ rest) n =
    Keeps-bind _ _ (Keeps-persist_candidate inv rejected c n)
      (λ m. Keeps-persist_from inv rejected rest m)

Keeps-persist_candidates :
    (inv : Inventory) (rejected : Bool) (l : List DiscoveryCandidate)
    → Keeps (persist_candidates inv rejected l)
unfolding persist_candidates
Keeps-persist_candidates inv rejected l = search (service_rules, Keeps-persist_from)

Keeps-queue_discovery_page :
    (job_id project_id page_id correlation_id now : ℕ)
    → Keeps (queue_discovery_page job_id project_id page_id correlation_id now)
unfolding queue_discovery_page
Keeps-queue_discovery_page job_id project_id page_id correlation_id now = search service_rules

Keeps-continue_discovery :
    (job : Job) (op : DiscoveryOperation) (next : Option Page) (now : ℕ)
    → Keeps (continue_discovery job op next now)
unfolding continue_discovery
Keeps-continue_discovery job op none now = search service_rules
Keeps-continue_discovery job op (some page) now =
    Keeps-queue_discovery_page op.job_id job.project_id page.id op.correlation_id now

module _ (rules : UrlRules) (settings : Settings) where
  Keeps-extend_inventory :
      (op : DiscoveryOperation) (page : Page) (r : BrowserOperationResult) (ids : ℕ → ℕ) (now : ℕ)
      → Keeps (extend_inventory rules settings op page r ids now)
  unfolding extend_inventory
  Keeps-extend_inventory op page r ids now =
      search (service_rules, Keeps-persist_candidates) depth 30

  pub Keeps-complete_discovery_page :
      (op : DiscoveryOperation) (r : BrowserOperationResult) (ids : ℕ → ℕ) (now : ℕ)
      → Keeps (complete_discovery_page rules settings op r ids now)
  unfolding complete_discovery_page
  Keeps-complete_discovery_page op r ids now =
      search (service_rules, Keeps-extend_inventory, Keeps-continue_discovery) depth 30

Keeps-mark_page : (id : Option ℕ) (status : PageStatus) → Keeps (mark_page id status)
unfolding mark_page
Keeps-mark_page id status = search service_rules

pub Keeps-fail_discovery :
    (c : Command) (e : Failure) (max_attempts now : ℕ) → Keeps (fail_discovery c e max_attempts now)
unfolding fail_discovery
Keeps-fail_discovery c e max_attempts now = search (service_rules, Keeps-mark_page) depth 30
