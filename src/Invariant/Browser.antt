-- ===== src/Invariant/Browser.antt =====
-- The browser methods keep the invariant.
use web_data_extraction_engi.Prelude.{ℕ, Bool, String, List, [], ◌∷◌}
use web_data_extraction_engi.Domain.{JobStatus}
use web_data_extraction_engi.Store.{Command, Navigation}
use web_data_extraction_engi.Service.Columns.{Failure}
use web_data_extraction_engi.Service.Browser.{
  CapturedArtifact, BrowserOperationResult, ensure_page, add_artifacts, append_events,
  prepare_browser_capture, complete_browser_capture, fail_browser_capture,
}
use web_data_extraction_engi.Invariant.Rules.{Keeps, Keeps-bind}
use web_data_extraction_engi.Invariant.Lifecycle.{service_rules}

pub Keeps-prepare_browser_capture :
    (c : Command) (worker_id : String) (now : ℕ) → Keeps (prepare_browser_capture c worker_id now)
unfolding prepare_browser_capture
Keeps-prepare_browser_capture c worker_id now = search service_rules depth 20

Keeps-ensure_page : (job_id page_id : ℕ) (n : Navigation) → Keeps (ensure_page job_id page_id n)
unfolding ensure_page
Keeps-ensure_page job_id page_id n = search service_rules depth 20

Keeps-add_artifacts :
    (job_id page_id : ℕ) (l : List CapturedArtifact) → Keeps (add_artifacts job_id page_id l)
unfolding add_artifacts
Keeps-add_artifacts job_id page_id [] = search service_rules
Keeps-add_artifacts job_id page_id (a ∷ rest) =
    Keeps-bind _ _ (search service_rules) (λ _. Keeps-add_artifacts job_id page_id rest)

pub Keeps-append_events :
    (job_id : ℕ) (stage : JobStatus) (correlation_id : ℕ) (l : List String)
    → Keeps (append_events job_id stage correlation_id l)
unfolding append_events
Keeps-append_events job_id stage correlation_id [] = search service_rules
Keeps-append_events job_id stage correlation_id (e ∷ rest) =
    Keeps-bind _ _ (search service_rules)
      (λ _. Keeps-append_events job_id stage correlation_id rest)

pub Keeps-complete_browser_capture :
    (c : Command) (r : BrowserOperationResult) (new_page_id now : ℕ)
    → Keeps (complete_browser_capture c r new_page_id now)
unfolding complete_browser_capture
Keeps-complete_browser_capture c r new_page_id now =
    search (service_rules, Keeps-ensure_page, Keeps-add_artifacts, Keeps-append_events) depth 30

pub Keeps-fail_browser_capture :
    (c : Command) (e : Failure) (browser_cancelled : Bool) (now : ℕ)
    → Keeps (fail_browser_capture c e browser_cancelled now)
unfolding fail_browser_capture
Keeps-fail_browser_capture c e browser_cancelled now = search service_rules depth 20
