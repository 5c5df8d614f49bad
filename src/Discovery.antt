-- ===== src/Discovery.antt =====
-- services/api/src/wde_api/discovery_service.py and discovery_types.py: which links of a page become
-- candidates of the inventory. The treatment of URL texts (discovery_policy.py, the classification
-- of a link and the XML parser) is an argument, `UrlRules`.
pub mod Bounds
use web_data_extraction_engi.Prelude.{
  ℕ, ◌+◌, min, Bool, true, false, not, ◌&&◌, ◌||◌, List, [], ◌∷◌, ◌++◌, Option, none, some, String,
  any, take, str_eq, str_in, maybe, if◌then◌else◌, ltb, leb,
}
use web_data_extraction_engi.Store.{CanonicalPlan, DiscoveryMethod}
use web_data_extraction_engi.Service.Browser.{NavigationSignal}

-- the `discovery_*` settings of config.py
pub record Settings : Type 0 where
  pub discovery_max_pages : ℕ
  pub discovery_max_depth : ℕ
  pub discovery_max_links_per_page : ℕ
  pub discovery_enable_sitemaps : Bool
  pub discovery_sitemap_max_bytes : ℕ
  pub discovery_sitemap_max_urls : ℕ

-- the treatment of texts
pub record UrlRules : Type 0 where
  -- `canonicalize_url(url, base_url=base_url)`
  pub canonicalize_url : String → Option String → Option String
  -- `scope_for(plan).allows(url)`: the decision and its text
  pub allows : CanonicalPlan → String → Bool × String
  -- `is_pagination_signal(signal.text, signal.rel, canonical)`
  pub is_pagination_signal : NavigationSignal → String → Bool
  -- the reason of `_classify_signal` for a relevant link
  pub relevance_reason : CanonicalPlan → NavigationSignal → String → String
  -- `len(sitemap_text.encode("utf-8"))`
  pub byte_length : String → ℕ
  -- the `loc` texts of the XML; `none` is its parse error
  pub locations : String → Option (List String)
  -- `default_sitemap_url(source_url)`
  pub default_sitemap_url : String → Option String

pub record DiscoveryCandidate : Type 0 where
  pub url : String
  pub canonical_url : String
  pub discovered_via : DiscoveryMethod
  pub depth : ℕ
  pub parent_canonical_url : String
  pub policy_decision : String
  pub relevance_reason : Option String

pub record CandidateDecision : Type 0 where
  pub candidates : List DiscoveryCandidate
  pub rejected : List DiscoveryCandidate
  pub duplicate_count : ℕ

abbrev pub no_candidates : CandidateDecision
no_candidates = record { candidates = []; rejected = []; duplicate_count = 0 }

-- `canonical in seen_urls or any(item.canonical_url == canonical for item in candidates)`
abbrev pub is_known : List String → List DiscoveryCandidate → String → Bool
is_known seen candidates canonical =
    str_in canonical seen || any (λ c. str_eq c.canonical_url canonical) candidates

-- appends to the lists of a decision
abbrev pub with_candidate : DiscoveryCandidate → CandidateDecision → CandidateDecision
with_candidate c d = record d { candidates = d.candidates ++ c ∷ [] }

abbrev pub with_rejected : DiscoveryCandidate → CandidateDecision → CandidateDecision
with_rejected c d = record d { rejected = d.rejected ++ c ∷ [] }

abbrev pub with_duplicate : CandidateDecision → CandidateDecision
with_duplicate d = record d { duplicate_count = d.duplicate_count + 1 }

module _ (rules : UrlRules) (settings : Settings) (plan : CanonicalPlan) where
  -- `_classify_signal`
  signal_candidate : String → ℕ → NavigationSignal → String → DiscoveryCandidate
  signal_candidate parent depth signal canonical =
      let paged = rules.is_pagination_signal signal canonical in
      record {
        url = canonical;
        canonical_url = canonical;
        discovered_via =
            if paged then DiscoveryMethod.pagination else DiscoveryMethod.relevant_link;
        depth = depth;
        parent_canonical_url = parent;
        policy_decision = (rules.allows plan canonical).1;
        relevance_reason =
            some
              (if paged then "pagination signal" else rules.relevance_reason plan signal canonical);
      }

  -- whether the plan follows a link of that method
  abbrev pub follows : Bool → Bool
  follows paged = if paged then plan.follow_pagination else plan.follow_relevant_links

  -- the body of the loop of `from_signals`, for a link with a canonical form
  examine_signal :
      List String → String → ℕ → NavigationSignal → CandidateDecision → String → CandidateDecision
  unfolding signal_candidate
  examine_signal seen parent depth signal d canonical =
      let c = signal_candidate parent depth signal canonical in
      if is_known seen d.candidates canonical
      then with_duplicate d
      else if not (rules.allows plan canonical).0
      then with_rejected c d
      else if follows (rules.is_pagination_signal signal canonical)
      then with_candidate c d
      else d

  unfoldable pub examine_signals :
      List String
      → String
      → String
      → ℕ
      → List NavigationSignal
      → CandidateDecision
      → CandidateDecision
  unfolding examine_signal
  examine_signals seen parent_url parent depth [] d = d
  examine_signals seen parent_url parent depth (s ∷ rest) d =
      examine_signals seen parent_url parent depth rest (
        maybe (rules.canonicalize_url s.href (some parent_url)) d
          (examine_signal seen parent depth s d))

  unfoldable pub from_signals :
      String → String → ℕ → List NavigationSignal → List String → CandidateDecision
  from_signals parent_url parent parent_depth signals seen =
      if leb (min plan.limits.max_pages settings.discovery_max_depth) parent_depth
      then no_candidates
      else if ltb settings.discovery_max_depth (parent_depth + 1)
      then no_candidates
      else examine_signals seen parent_url parent (parent_depth + 1)
          (take settings.discovery_max_links_per_page signals) no_candidates

  location_candidate : String → ℕ → String → DiscoveryCandidate
  location_candidate parent depth canonical = record {
    url = canonical;
    canonical_url = canonical;
    discovered_via = DiscoveryMethod.sitemap;
    depth = depth;
    parent_canonical_url = parent;
    policy_decision = (rules.allows plan canonical).1;
    relevance_reason = some "sitemap location";
  }

  -- the body of the loop of `sitemap_candidates`
  examine_location : List String → String → ℕ → CandidateDecision → String → CandidateDecision
  unfolding location_candidate
  examine_location seen parent depth d canonical =
      let c = location_candidate parent depth canonical in
      let allowed = (rules.allows plan canonical).0 in
      if is_known seen d.candidates canonical
      then with_duplicate d
      else if allowed && leb depth settings.discovery_max_depth
      then with_candidate c d
      else if not allowed
      then with_rejected c d
      else d

  unfoldable pub examine_locations :
      List String → String → ℕ → List String → CandidateDecision → CandidateDecision
  unfolding examine_location
  examine_locations seen parent depth [] d = d
  examine_locations seen parent depth (l ∷ rest) d =
      examine_locations seen parent depth rest
        (maybe (rules.canonicalize_url l none) d (examine_location seen parent depth d))

  unfoldable pub sitemap_candidates : String → String → ℕ → List String → CandidateDecision
  sitemap_candidates text parent parent_depth seen =
      if ltb settings.discovery_sitemap_max_bytes (rules.byte_length text)
      then no_candidates
      else maybe (rules.locations text) no_candidates λ locations.
        examine_locations seen parent (parent_depth + 1)
          (take settings.discovery_sitemap_max_urls locations) no_candidates
