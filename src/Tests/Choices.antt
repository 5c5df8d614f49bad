-- ===== src/Tests/Choices.antt =====
-- The theorems about the choice of pages and records at concrete inputs.
use web_data_extraction_engi.Prelude.{◌≡◌, ◌≤◌, refl, true, false, [], ◌∷◌, none, max, leb}
use web_data_extraction_engi.Discovery.{from_signals, sitemap_candidates}
use web_data_extraction_engi.Discovery.Bounds.{
  IsDecision, from_signals-IsDecision, sitemap_candidates-IsDecision,
}
use web_data_extraction_engi.Store.{DiscoveryMethod}
use web_data_extraction_engi.Store.Tx.{◌>>=◌}
use web_data_extraction_engi.Store.Jobs.{modify_job}
use web_data_extraction_engi.Store.Events.{append_event}
use web_data_extraction_engi.Store.Tables.{add_page}
use web_data_extraction_engi.Service.Inventory.{
  Inventory, announce, persist_candidate, persist_from, persist_candidates,
}
use web_data_extraction_engi.Discovery.{DiscoveryCandidate}
use web_data_extraction_engi.System.{commit}
use web_data_extraction_engi.Behaviour.Pages.{persist_candidates-limit, waiting_count}
use web_data_extraction_engi.Demo.{plan, url, rules, settings, signals}
use web_data_extraction_engi.Demo.{in_planning}

from_signals-IsDecision_example :
    IsDecision rules settings plan
      (url ∷ [])
      1
      5
      (from_signals rules settings plan url url 0 signals (url ∷ []))
    × ((leb 2 0 ≡ true)
        → (from_signals rules settings plan url url 0 signals (url ∷ [])).candidates ≡ [])
from_signals-IsDecision_example =
    from_signals-IsDecision rules settings plan url url 0 signals (url ∷ [])

sitemap_candidates-IsDecision_example :
    IsDecision rules settings plan
      (url ∷ [])
      1
      5
      (sitemap_candidates rules settings plan "text" url 0 (url ∷ []))
sitemap_candidates-IsDecision_example =
    sitemap_candidates-IsDecision rules settings plan "text" url 0 (url ∷ [])

abbrev inventory : Inventory
inventory = record {
  job_id = 5;
  correlation_id = 9;
  parent_id = 20;
  limit = 1;
  ids = λ n. n;
  now = 300;
}

abbrev candidate : DiscoveryCandidate
candidate = record {
  url = url;
  canonical_url = url;
  discovered_via = DiscoveryMethod.link;
  depth = 1;
  parent_canonical_url = url;
  policy_decision = "ALLOWED";
  relevance_reason = none;
}

persist_candidates-limit_example :
    waiting_count 5 (commit (persist_candidates inventory false (candidate ∷ [])) in_planning)
    ≤ max 1 (waiting_count 5 in_planning)
unfolding commit persist_candidates persist_from persist_candidate announce add_page modify_job
    append_event ◌>>=◌
persist_candidates-limit_example =
    persist_candidates-limit inventory false (candidate ∷ []) in_planning
      (commit (persist_candidates inventory false (candidate ∷ [])) in_planning) tt refl
