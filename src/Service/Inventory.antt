-- ===== src/Service/Inventory.antt =====
-- The page inventory of a job: queries, and `_persist_discovery_candidates`.
use web_data_extraction_engi.Prelude.{
  ℕ, ◌+◌, Bool, true, false, not, ◌&&◌, ◌||◌, List, [], ◌∷◌, Option, none, some, String, map,
  where_, length, count_if, first_by, is_some, maybe, if◌then◌else◌, ◌==◌, ltb, leb,
}
use web_data_extraction_engi.Domain.{discovering}
use web_data_extraction_engi.Store.{Db, Page, PageStatus, DiscoveryMethod, ExtractionPlan}
use web_data_extraction_engi.Store.Tx.{Tx, ◌>>=◌, ◌>>◌, pure, gets}
use web_data_extraction_engi.Store.Jobs.{modify_job}
use web_data_extraction_engi.Store.Events.{append_event}
use web_data_extraction_engi.Store.Tables.{add_page}
use web_data_extraction_engi.Service.Columns.{count_discovered}
use web_data_extraction_engi.Service.Browser.{page_by_url, new_page}
use web_data_extraction_engi.Discovery.{DiscoveryCandidate}

abbrev pub page_is : PageStatus → PageStatus → Bool
page_is PageStatus.discovered PageStatus.discovered = true
page_is PageStatus.queued PageStatus.queued = true
page_is PageStatus.visited PageStatus.visited = true
page_is PageStatus.rejected PageStatus.rejected = true
page_is PageStatus.duplicate PageStatus.duplicate = true
page_is PageStatus.failed PageStatus.failed = true
page_is PageStatus.skipped PageStatus.skipped = true
page_is PageStatus.captured PageStatus.captured = true
page_is _ _ = false

abbrev pub is_method : DiscoveryMethod → Option DiscoveryMethod → Bool
is_method DiscoveryMethod.sitemap (some DiscoveryMethod.sitemap) = true
is_method DiscoveryMethod.pagination (some DiscoveryMethod.pagination) = true
is_method _ _ = false

-- an ascending order of a column, with its NULLs last
abbrev pub earlier : Option ℕ → Option ℕ → Bool
earlier none b = false
earlier (some a) none = true
earlier (some a) (some b) = ltb a b

-- `.order_by(Page.depth, time, Page.id)`
abbrev pub page_order : (Page → Option ℕ) → Page → Page → Bool
page_order time p q =
    ltb p.depth q.depth
    || (p.depth == q.depth
        && (earlier (time p) (time q) || (not (earlier (time q) (time p)) && ltb p.id q.id)))

-- `if requested_page_id: query.where(Page.id == requested_page_id)`
abbrev pub is_requested : Option ℕ → Page → Bool
is_requested requested p = maybe requested true (λ id. p.id == id)

-- the first page of the job that waits for its discovery
abbrev pub next_discovered : ℕ → Option ℕ → Db → Option Page
next_discovered job_id requested db = first_by (page_order (λ p. p.discovered_at)) (
    where_
      (λ p.
        p.job_id == job_id && page_is p.status PageStatus.discovered && is_requested requested p)
      db.pages)

-- `.order_by(ExtractionPlan.version.desc()).limit(1)`
abbrev pub latest_plan : ℕ → Db → Option ExtractionPlan
latest_plan job_id db =
    first_by (λ p q. ltb q.version p.version) (where_ (λ p. p.job_id == job_id) db.plans)

-- pages that count against the limit: neither rejected nor duplicates
abbrev pub is_accepted : ℕ → Page → Bool
is_accepted job_id p =
    p.job_id == job_id
    && not (page_is p.status PageStatus.rejected || page_is p.status PageStatus.duplicate)

abbrev pub accepted_count : ℕ → Db → ℕ
accepted_count job_id db = count_if (is_accepted job_id) db.pages

abbrev pub seen_urls : ℕ → Db → List String
seen_urls job_id db = map (λ p. p.canonical_url) (where_ (λ p. p.job_id == job_id) db.pages)

-- the status of a new page: `over` says that the limit is reached
abbrev pub candidate_status : Bool → Bool → PageStatus
candidate_status true over = PageStatus.rejected
candidate_status false true = PageStatus.skipped
candidate_status false false = PageStatus.discovered

-- `pagination_detected` or `page_discovered`
abbrev pub found_event : DiscoveryMethod → String
found_event method =
    if is_method DiscoveryMethod.pagination (some method)
    then "pagination_detected"
    else "page_discovered"

abbrev pub candidate_page : ℕ → ℕ → ℕ → PageStatus → ℕ → DiscoveryCandidate → Page
candidate_page id job_id parent_id status now c =
    record (new_page id job_id c.url c.canonical_url status) {
      discovered_at = some now;
      discovered_via = some c.discovered_via;
      depth = c.depth;
      parent_page_id = some parent_id;
      policy_decision = some c.policy_decision;
      relevance_reason = c.relevance_reason;
    }

-- What the candidates of one page share. `ids n` is the UUID that is drawn for the n-th page row.
pub record Inventory : Type 0 where
  pub job_id : ℕ
  pub correlation_id : ℕ
  pub parent_id : ℕ
  pub limit : ℕ
  pub ids : ℕ → ℕ
  pub now : ℕ

module _ (inv : Inventory) where
  -- the event of a new page; the answer is the new accepted count
  unfoldable pub announce : PageStatus → DiscoveryMethod → ℕ → Tx ℕ
  announce PageStatus.discovered method accepted = do
    modify_job inv.job_id count_discovered
    append_event inv.job_id (found_event method) discovering none inv.correlation_id
    pure (accepted + 1)
  announce _ method accepted = do
    append_event inv.job_id "page_rejected" discovering none inv.correlation_id
    pure accepted

  -- the body of the loop
  unfoldable pub persist_candidate : Bool → DiscoveryCandidate → ℕ → Tx ℕ
  persist_candidate rejected c accepted = do
    existing ← gets (page_by_url inv.job_id c.canonical_url)
    if is_some existing
        then (do
          append_event inv.job_id "page_duplicate" discovering none inv.correlation_id
          pure accepted)
        else do
          let status = candidate_status rejected (leb inv.limit accepted)
          rows ← gets (λ db. length db.pages)
          add_page (candidate_page (inv.ids rows) inv.job_id inv.parent_id status inv.now c)
          announce status c.discovered_via accepted

  unfoldable pub persist_from : Bool → List DiscoveryCandidate → ℕ → Tx (Unit {0})
  persist_from rejected [] accepted = pure tt
  persist_from rejected (c ∷ rest) accepted = do
    accepted' ← persist_candidate rejected c accepted
    persist_from rejected rest accepted'

  unfoldable pub persist_candidates : Bool → List DiscoveryCandidate → Tx (Unit {0})
  persist_candidates rejected candidates = do
    accepted ← gets (accepted_count inv.job_id)
    persist_from rejected candidates accepted
