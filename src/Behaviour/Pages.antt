-- ===== src/Behaviour/Pages.antt =====
-- The limit on the pages that wait for their discovery.
use web_data_extraction_engi.Prelude.{
  ℕ, ◌+◌, ◌≤◌, max, ◌≡◌, ◌⊎◌, refl, Bool, true, false, ◌&&◌, ◌||◌, List, [], ◌∷◌, ◌++◌, any, length,
  count_if, if◌then◌else◌, ◌==◌, ==_iff, leb, str_eq, Bool-cases, Option-cases, inl, inr, arith,
}
use web_data_extraction_engi.Store.{Db, Page, PageStatus}
use web_data_extraction_engi.Store.Tx.{Result, ok, pure, ◌>>=◌}
use web_data_extraction_engi.Store.Jobs.{modify_job}
use web_data_extraction_engi.Store.Events.{append_event}
use web_data_extraction_engi.Store.Tables.{add_page}
use web_data_extraction_engi.Discovery.{DiscoveryCandidate}
use web_data_extraction_engi.Service.Browser.{page_by_url}
use web_data_extraction_engi.Service.Inventory.{
  Inventory, page_is, is_accepted, accepted_count, candidate_page, announce, persist_candidate,
  persist_from, persist_candidates,
}
use web_data_extraction_engi.Behaviour.Inversion.{bind-ok, ok_unique}
use web_data_extraction_engi.Behaviour.Limits.{count_if-append}

abbrev pub is_waiting : ℕ → Page → Bool
is_waiting job_id p = p.job_id == job_id && page_is p.status PageStatus.discovered

-- the number of the job's pages that wait for their discovery
abbrev pub waiting_count : ℕ → Db → ℕ
waiting_count job_id db = count_if (is_waiting job_id) db.pages

accepted_of_waiting :
    (p : PageStatus)
    → page_is p PageStatus.discovered ≡ true
    → (page_is p PageStatus.rejected || page_is p PageStatus.duplicate) ≡ false
accepted_of_waiting PageStatus.discovered h = refl
accepted_of_waiting _ h = cc

waiting-accepted :
    (job_id : ℕ) (ps : List Page)
    → count_if (is_waiting job_id) ps ≤ count_if (is_accepted job_id) ps
waiting-accepted job_id [] = omega arith
waiting-accepted job_id (p ∷ ps) = elim (Bool-cases (page_is p.status PageStatus.discovered)) [
  | inl e ↦ ground (arith, e, accepted_of_waiting p.status e, waiting-accepted job_id ps)
  | inr e ↦ ground (arith, e, waiting-accepted job_id ps)
]

module _ (inv : Inventory) where
  -- what one candidate does to the number of waiting pages and to the counter of the loop
  record Moved (s : Db) (n : ℕ) (t : Db) (m : ℕ) : Type 0 where
    move :
        ((waiting_count inv.job_id t ≡ waiting_count inv.job_id s) × (m ≡ n))
        ⊎ ((waiting_count inv.job_id t ≡ waiting_count inv.job_id s + 1)
            × (m ≡ n + 1)
            × (n + 1 ≤ inv.limit))

  carry :
      (s : Db) (n a m : ℕ) (u t : Db)
      → ◌≡◌ {A = Result (ℕ × Db)} (ok (a, u)) (ok (m, t))
      → Moved s n u a
      → Moved s n t m
  carry s n a m u t h d = let (p, q) = ok_unique (ok (a, u)) a m u t refl h in rw⁻¹ (p, q) d

  appended :
      (s : Db) (st : PageStatus) (c : DiscoveryCandidate)
      → count_if (is_waiting inv.job_id) (
          s.pages
          ++ candidate_page (inv.ids (length s.pages)) inv.job_id inv.parent_id st inv.now c ∷ [])
        ≡ waiting_count inv.job_id s + (if page_is st PageStatus.discovered then 1 else 0)
  appended s st c = rw (count_if-append, (==_iff inv.job_id inv.job_id).1 refl)

  persist_candidate-Moved :
      (rejected : Bool) (c : DiscoveryCandidate) (n m : ℕ) (s t : Db)
      → persist_candidate inv rejected c n s ≡ ok (m, t)
      → Moved s n t m
  unfolding persist_candidate announce modify_job append_event add_page ◌>>=◌
  persist_candidate-Moved rejected c n m s t h =
      elim (Option-cases (page_by_url inv.job_id c.canonical_url s)) [
        | inr (p, e) ↦ carry s n _ m _ t (rw e at h) (record { move = inl (refl, refl) })
        | inl e ↦
            elim (Bool-cases (
              any
                (λ r.
                  r.id == inv.ids (length s.pages)
                  || (r.job_id == inv.job_id && str_eq r.canonical_url c.canonical_url))
                s.pages)) [
                  | inl k ↦ cc (rw (e, k) at h)
                  | inr k ↦ elim (Bool-cases rejected) [
                    | inl r ↦ carry s n _ m _ t (rw (e, r, k) at h) (record {
                      move = inl (omega (arith, appended s PageStatus.rejected c), refl);
                    })
                    | inr r ↦ elim (Bool-cases (leb inv.limit n)) [
                      | inl l ↦ carry s n _ m _ t (rw (e, r, l, k) at h) (record {
                        move = inl (omega (arith, appended s PageStatus.skipped c), refl);
                      })
                      | inr l ↦ carry s n _ m _ t (rw (e, r, l, k) at h) (record {
                        move = inr (appended s PageStatus.discovered c, refl, ground arith);
                      })
                    ]
                  ]
                ]
      ]

  moved-bounds :
      (n m w : ℕ) (s v : Db)
      → waiting_count inv.job_id s ≤ n
      → waiting_count inv.job_id s ≤ max inv.limit w
      → ((waiting_count inv.job_id v ≡ waiting_count inv.job_id s) × (m ≡ n))
        ⊎ ((waiting_count inv.job_id v ≡ waiting_count inv.job_id s + 1)
            × (m ≡ n + 1)
            × (n + 1 ≤ inv.limit))
      → (waiting_count inv.job_id v ≤ m) × (waiting_count inv.job_id v ≤ max inv.limit w)
  moved-bounds n m w s v a b (inl (x, y)) = (omega arith, omega arith)
  moved-bounds n m w s v a b (inr (x, y, z)) = (omega arith, omega arith)

  -- the counter of the loop is an upper bound of the waiting pages, which respect the limit
  persist_from-bound :
      (rejected : Bool) (l : List DiscoveryCandidate) (n w : ℕ) (s t : Db) (u : Unit {0})
      → waiting_count inv.job_id s ≤ n
      → waiting_count inv.job_id s ≤ max inv.limit w
      → persist_from inv rejected l n s ≡ ok (u, t)
      → waiting_count inv.job_id t ≤ max inv.limit w
  unfolding persist_from pure
  persist_from-bound rejected [] n w s t u a b h =
      ended (ok_unique (ok (tt, s)) tt u s t refl (opened h))
    where
      opened : pure tt s ≡ ok (u, t) → ◌≡◌ {A = Result (Unit {0} × Db)} (ok (tt, s)) (ok (u, t))
      opened h = h

      ended : (tt ≡ u) × (s ≡ t) → waiting_count inv.job_id t ≤ max inv.limit w
      ended (p, q) = rw⁻¹ q b
  persist_from-bound rejected (c ∷ rest) n w s t u a b h =
      let (m, (v, (e, q))) = bind-ok _ _ s u t h in
      let (x, y) = moved-bounds n m w s v a b (persist_candidate-Moved rejected c n m s v e).move in
      persist_from-bound rejected rest m w v t u x y q

  -- When `_persist_discovery_candidates` succeeds, the pages of the job that wait for discovery are
  -- at most as many as the limit, unless there were more before.
  pub persist_candidates-limit :
      (rejected : Bool) (l : List DiscoveryCandidate) (s t : Db) (u : Unit {0})
      → persist_candidates inv rejected l s ≡ ok (u, t)
      → waiting_count inv.job_id t ≤ max inv.limit (waiting_count inv.job_id s)
  unfolding persist_candidates ◌>>=◌
  persist_candidates-limit rejected l s t u h =
      persist_from-bound rejected l (accepted_count inv.job_id s) (waiting_count inv.job_id s) s t u
        (waiting-accepted inv.job_id s.pages) (omega arith) h
