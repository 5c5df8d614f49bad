-- ===== src/Discovery/Bounds.antt =====
-- What `from_signals` and `sitemap_candidates` choose.
use web_data_extraction_engi.Prelude.{
  ℕ, suc, ◌+◌, ◌≤◌, min, ◌≡◌, ◌⊎◌, refl, Bool, true, false, List, [], ◌∷◌, ◌++◌, Option, none, some,
  String, any, take, length, length-append, str_eq, str_in, maybe, if◌then◌else◌, ltb, leb,
  Bool-cases, Option-cases, inl, inr, arith, All, All-append,
}
use web_data_extraction_engi.Prelude.Counting.{length-take}
use web_data_extraction_engi.Store.{CanonicalPlan}
use web_data_extraction_engi.Service.Browser.{NavigationSignal}
use web_data_extraction_engi.Discovery.{
  Settings, UrlRules, DiscoveryCandidate, CandidateDecision, no_candidates, is_known,
  with_candidate, with_rejected, with_duplicate, examine_signal, examine_location, follows,
  examine_signals, from_signals, examine_locations, sitemap_candidates,
}

-- no two candidates with one URL
abbrev pub Distinct : List DiscoveryCandidate → Type 0
Distinct [] = Unit
Distinct (c ∷ cs) = (any (λ x. str_eq c.canonical_url x.canonical_url) cs ≡ false) × Distinct cs

any-append :
    {A : Type 0} (p : A → Bool) (xs : List A) (y : A)
    → any p xs ≡ false
    → p y ≡ false
    → any p (xs ++ y ∷ []) ≡ false
any-append p [] y h q = rw q
any-append p (x ∷ xs) y h q = ground (arith, any-append p xs y)

Distinct-append :
    (cs : List DiscoveryCandidate) (c : DiscoveryCandidate)
    → Distinct cs
    → any (λ x. str_eq x.canonical_url c.canonical_url) cs ≡ false
    → Distinct (cs ++ c ∷ [])
Distinct-append [] c h q = (refl, tt)
Distinct-append (x ∷ cs) c h q = elim (Bool-cases (str_eq x.canonical_url c.canonical_url)) [
  | inl e ↦ cc (rw e at q)
  | inr e ↦ (
    any-append (λ y. str_eq x.canonical_url y.canonical_url) cs c h.0 e,
    Distinct-append cs c h.1 (rw e at q),
  )
]

module _ (rules : UrlRules) (settings : Settings) (plan : CanonicalPlan) where
  -- what a candidate of a page at depth `depth - 1` is
  pub record IsChosen (seen : List String) (depth : ℕ) (c : DiscoveryCandidate) : Type 0 where
    pub is_allowed : (rules.allows plan c.canonical_url).0 ≡ true
    pub is_new : str_in c.canonical_url seen ≡ false
    pub one_deeper : c.depth ≡ depth

  -- what a decision promises after at most `n` links
  pub record IsDecision (seen : List String) (depth n : ℕ) (d : CandidateDecision) : Type 0 where
    pub chosen : All (IsChosen seen depth) d.candidates
    pub distinct : Distinct d.candidates
    pub bound : length d.candidates ≤ n

  empty : (seen : List String) (depth n : ℕ) → IsDecision seen depth n no_candidates
  empty seen depth n = record { chosen = tt; distinct = tt; bound = omega arith }

  relax :
      {seen : List String} {depth n m : ℕ} {d : CandidateDecision}
      → IsDecision seen depth n d
      → n ≤ m
      → IsDecision seen depth m d
  relax h p = record { chosen = h.chosen; distinct = h.distinct; bound = omega (arith, h.bound) }

  extended :
      (seen : List String) (depth n : ℕ) (d : CandidateDecision) (c : DiscoveryCandidate)
      → is_known seen d.candidates c.canonical_url ≡ false
      → (rules.allows plan c.canonical_url).0 ≡ true
      → c.depth ≡ depth
      → IsDecision seen depth n d
      → IsDecision seen depth (suc n) (with_candidate c d)
  extended seen depth n d c k a e h = elim (Bool-cases (str_in c.canonical_url seen)) [
    | inl y ↦ cc (rw y at k)
    | inr y ↦ record {
      chosen =
          All-append (IsChosen seen depth) d.candidates (c ∷ []) h.chosen
            (record { is_allowed = a; is_new = y; one_deeper = e }, tt);
      distinct = Distinct-append d.candidates c h.distinct (rw y at k);
      bound = omega (arith, h.bound, length-append d.candidates (c ∷ []));
    }
  ]

  rejected-same :
      (seen : List String) (depth n : ℕ) (d : CandidateDecision) (c : DiscoveryCandidate)
      → IsDecision seen depth n d
      → IsDecision seen depth (suc n) (with_rejected c d)
  rejected-same seen depth n d c h = record {
    chosen = h.chosen;
    distinct = h.distinct;
    bound = omega (arith, h.bound);
  }

  duplicate-same :
      (seen : List String) (depth n : ℕ) (d : CandidateDecision)
      → IsDecision seen depth n d
      → IsDecision seen depth (suc n) (with_duplicate d)
  duplicate-same seen depth n d h = record {
    chosen = h.chosen;
    distinct = h.distinct;
    bound = omega (arith, h.bound);
  }

  signal-IsDecision :
      (seen : List String) (parent : String) (depth n : ℕ) (g : NavigationSignal)
      (d : CandidateDecision) (canonical : String)
      → IsDecision seen depth n d
      → IsDecision seen depth
          (suc n)
          (examine_signal rules settings plan seen parent depth g d canonical)
  unfolding examine_signal
  signal-IsDecision seen parent depth n g d canonical h =
      elim (Bool-cases (is_known seen d.candidates canonical)) [
        | inl k ↦ rw k (duplicate-same seen depth n d h)
        | inr k ↦ elim (Bool-cases ((rules.allows plan canonical).0)) [
          | inr a ↦ rw (k, a) (rejected-same seen depth n d _ h)
          | inl a ↦
              elim (Bool-cases
                (follows rules settings plan (rules.is_pagination_signal g canonical))) [
                  | inl f ↦ rw (k, a, f) (extended seen depth n d _ k a refl h)
                  | inr f ↦ rw (k, a, f) (relax h (omega arith))
                ]
        ]
      ]

  signals-IsDecision :
      (seen : List String) (url parent : String) (depth n : ℕ) (l : List NavigationSignal)
      (d : CandidateDecision)
      → IsDecision seen depth n d
      → IsDecision seen depth
          (n + length l)
          (examine_signals rules settings plan seen url parent depth l d)
  unfolding examine_signals
  signals-IsDecision seen url parent depth n [] d h = relax h (omega arith)
  signals-IsDecision seen url parent depth n (g ∷ l) d h =
      relax
        (signals-IsDecision seen url parent depth (suc n) l _
          (step (rules.canonicalize_url g.href (some url))))
        (omega arith)
    where
      step :
          (o : Option String)
          → IsDecision seen depth
              (suc n)
              (maybe o d (examine_signal rules settings plan seen parent depth g d))
      step none = relax h (omega arith)
      step (some canonical) = signal-IsDecision seen parent depth n g d canonical h

  location-IsDecision :
      (seen : List String) (parent : String) (depth n : ℕ) (d : CandidateDecision)
      (canonical : String)
      → IsDecision seen depth n d
      → IsDecision seen depth
          (suc n)
          (examine_location rules settings plan seen parent depth d canonical)
  unfolding examine_location
  location-IsDecision seen parent depth n d canonical h =
      elim (Bool-cases (is_known seen d.candidates canonical)) [
        | inl k ↦ rw k (duplicate-same seen depth n d h)
        | inr k ↦ elim (Bool-cases ((rules.allows plan canonical).0)) [
          | inr a ↦ rw (k, a) (rejected-same seen depth n d _ h)
          | inl a ↦ elim (Bool-cases (leb depth settings.discovery_max_depth)) [
            | inl f ↦ rw (k, a, f) (extended seen depth n d _ k a refl h)
            | inr f ↦ rw (k, a, f) (relax h (omega arith))
          ]
        ]
      ]

  locations-IsDecision :
      (seen : List String) (parent : String) (depth n : ℕ) (l : List String) (d : CandidateDecision)
      → IsDecision seen depth n d
      → IsDecision seen depth
          (n + length l)
          (examine_locations rules settings plan seen parent depth l d)
  unfolding examine_locations
  locations-IsDecision seen parent depth n [] d h = relax h (omega arith)
  locations-IsDecision seen parent depth n (x ∷ l) d h =
      relax
        (locations-IsDecision seen parent depth (suc n) l _ (step (rules.canonicalize_url x none)))
        (omega arith)
    where
      step :
          (o : Option String)
          → IsDecision seen depth
              (suc n)
              (maybe o d (examine_location rules settings plan seen parent depth d))
      step none = relax h (omega arith)
      step (some canonical) = location-IsDecision seen parent depth n d canonical h

  -- Every link that `from_signals` chooses is allowed by the plan's scope, is not among the URLs that
  -- the job has seen, and stands one level deeper than the page; no two of them have one URL; there
  -- are at most `discovery_max_links_per_page`; and there is none unless the page's depth is below
  -- both `discovery_max_depth` and the plan's `max_pages`.
  pub from_signals-IsDecision :
      (url parent : String) (depth : ℕ) (signals : List NavigationSignal) (seen : List String)
      → IsDecision seen
          (depth + 1)
          settings.discovery_max_links_per_page
          (from_signals rules settings plan url parent depth signals seen)
        × ((leb (min plan.limits.max_pages settings.discovery_max_depth) depth ≡ true)
            → (from_signals rules settings plan url parent depth signals seen).candidates ≡ [])
  unfolding from_signals
  from_signals-IsDecision url parent depth signals seen =
      elim (Bool-cases (leb (min plan.limits.max_pages settings.discovery_max_depth) depth)) [
        | inl a ↦ (rw a (empty seen (depth + 1) settings.discovery_max_links_per_page), λ e. rw a)
        | inr a ↦ (
          rw a (second (Bool-cases (ltb settings.discovery_max_depth (depth + 1)))),
          λ e. cc (a, e),
        )
      ]
    where
      second :
          (o : (ltb settings.discovery_max_depth (depth + 1) ≡ true)
            ⊎ (ltb settings.discovery_max_depth (depth + 1) ≡ false))
          → IsDecision seen (depth + 1) settings.discovery_max_links_per_page (
              if ltb settings.discovery_max_depth (depth + 1)
              then no_candidates
              else examine_signals rules settings plan seen url parent
                  (depth + 1)
                  (take settings.discovery_max_links_per_page signals)
                  no_candidates)
      second (inl b) = rw b (empty seen (depth + 1) settings.discovery_max_links_per_page)
      second (inr b) = rw b (
          relax
            (signals-IsDecision seen url parent (depth + 1) 0
              (take settings.discovery_max_links_per_page signals) no_candidates
              (empty seen (depth + 1) 0))
            (omega (arith, length-take settings.discovery_max_links_per_page signals)))

  -- Every location that `sitemap_candidates` chooses is allowed by the plan's scope, is not among the
  -- URLs that the job has seen, and stands one level deeper than the page; no two of them have one
  -- URL; and there are at most `discovery_sitemap_max_urls`.
  pub sitemap_candidates-IsDecision :
      (text parent : String) (depth : ℕ) (seen : List String)
      → IsDecision seen
          (depth + 1)
          settings.discovery_sitemap_max_urls
          (sitemap_candidates rules settings plan text parent depth seen)
  unfolding sitemap_candidates
  sitemap_candidates-IsDecision text parent depth seen =
      elim (Bool-cases (ltb settings.discovery_sitemap_max_bytes (rules.byte_length text))) [
        | inl a ↦ rw a (empty seen (depth + 1) settings.discovery_sitemap_max_urls)
        | inr a ↦ elim (Option-cases (rules.locations text)) [
          | inl e ↦ rw (a, e) (empty seen (depth + 1) settings.discovery_sitemap_max_urls)
          | inr (l, e) ↦
              rw (a, e)
                (relax
                  (locations-IsDecision seen parent (depth + 1) 0
                    (take settings.discovery_sitemap_max_urls l) no_candidates
                    (empty seen (depth + 1) 0))
                  (omega (arith, length-take settings.discovery_sitemap_max_urls l)))
        ]
      ]
