-- ===== src/Behaviour/Accepted.antt =====
-- What an accepted request leaves under its idempotency key.
use web_data_extraction_engi.Prelude.{
  ℕ, ◌≡◌, ◌⊎◌, refl, true, false, ◌&&◌, [], ◌∷◌, ◌++◌, Option, none, some, String, first, any, ◌==◌,
  ==_iff, str_eq, eq_iff, Bool-cases, Option-cases, inl, inr,
}
use web_data_extraction_engi.Store.{Db, Job, Project, Source, IdempotencyKey}
use web_data_extraction_engi.Store.Tx.{
  Result, ok, err, ◌>>=◌, pure, some_or, integrity_error, flush_conflict, guarded, on_conflict,
  resolve,
}
use web_data_extraction_engi.Store.Jobs.{find_job}
use web_data_extraction_engi.Store.Tables.{add_source}
use web_data_extraction_engi.Service.Lifecycle.{assert_project_access, owns}
use web_data_extraction_engi.Service.Creation.{
  JobCreateRequest, CanonicalUrl, JobAccepted, accepted, new_job, key_row, source_by_url,
  accepted_job, replay, ensure_source, add_planning_work, insert_row, insert_job, after_conflict,
  submit, create_job,
}
use web_data_extraction_engi.Behaviour.Inversion.{bind-ok, ok_unique}
use web_data_extraction_engi.Behaviour.Insertions.{
  first-appended, find_job-appended, add_job-ok, append_event-ok, add_work-ok, add_key-ok,
  relabel-ok,
}

-- what the rows of a used key say
pub record Used (project_id : ℕ) (k fingerprint : String) (r : JobAccepted) (s t : Db)
    : Type 0 where
  pub projects : t.projects ≡ s.projects
  pub row : IdempotencyKey
  pub row_found : key_row project_id k t ≡ some row
  pub hash : row.request_hash ≡ fingerprint
  pub job : Job
  pub job_found : find_job row.job_id t.jobs ≡ some job
  pub answer : r ≡ accepted job

pub str_same : (a : String) → str_eq a a ≡ true
str_same a = (eq_iff a a).1 refl

module _ (validate_initial_url : String → Option CanonicalUrl)
    (request_fingerprint : JobCreateRequest → String) (request : JobCreateRequest)
    (principal_id : ℕ) (k : String) (given : str_eq k "" ≡ false) where
  -- the answer to the key of a row
  replay-Used :
      (s : Db) (row : IdempotencyKey) (r : JobAccepted) (t : Db)
      → key_row request.project_id k s ≡ some row
      → replay row (request_fingerprint request) s ≡ ok (r, t)
      → (t ≡ s) × Used request.project_id k (request_fingerprint request) r s s
  unfolding replay accepted_job some_or ◌>>=◌
  replay-Used s row r t e h =
      elim (Bool-cases (str_eq row.request_hash (request_fingerprint request))) [
        | inr n ↦ cc (rw n at h)
        | inl y ↦ elim (Option-cases (find_job row.job_id s.jobs)) [
          | inl n ↦ cc (rw (y, n) at h)
          | inr (job, f) ↦
              let (a, q) =
                ok_unique (ok (accepted job, s)) r (accepted job) t s (rw (y, f) at h) refl in
              (
                q,
                record {
                  projects = refl;
                  row = row;
                  row_found = e;
                  hash = (eq_iff row.request_hash (request_fingerprint request)).0 y;
                  job = job;
                  job_found = f;
                  answer = a;
                },
              )
        ]
      ]

  carry :
      (s : Db) (a r : JobAccepted) (u t : Db)
      → ◌≡◌ {A = Result (JobAccepted × Db)} (ok (a, u)) (ok (r, t))
      → Used request.project_id k (request_fingerprint request) a s u
      → Used request.project_id k (request_fingerprint request) r s t
  carry s a r u t h d = let (p, q) = ok_unique (ok (a, u)) a r u t refl h in rw⁻¹ (p, q) d

  -- the tables after the search for the source
  Sourced : ℕ → CanonicalUrl → Db → ℕ → Db → Type 0
  Sourced source_id canonical s id u =
      (ensure_source request.project_id source_id canonical s ≡ ok (id, u))
      × (u.projects ≡ s.projects)
      × (u.keys ≡ s.keys)

  ensure_source-cases :
      (source_id : ℕ) (canonical : CanonicalUrl) (s : Db)
      → (ensure_source request.project_id source_id canonical s ≡ err integrity_error)
        ⊎ ((id : ℕ) × ((u : Db) × Sourced source_id canonical s id u))
  unfolding ensure_source add_source ◌>>=◌ Sourced
  ensure_source-cases source_id canonical s =
      elim (Option-cases (source_by_url request.project_id canonical.canonical_url s)) [
        | inr (row, e) ↦ inr (row.id, (s, (rw e, refl, refl)))
        | inl e ↦
            let row : Source = record {
              id = source_id;
              project_id = request.project_id;
              canonical_url = canonical.canonical_url;
              domain = canonical.domain;
            } in
            elim (Bool-cases (
              any
                (λ r.
                  r.project_id == request.project_id
                  && str_eq r.canonical_url canonical.canonical_url)
                s.sources)) [
                  | inl c ↦ inl (rw (e, c))
                  | inr c ↦ inr (
                    source_id,
                    (record s { sources = s.sources ++ row ∷ [] }, (rw (e, c), refl, refl)),
                  )
                ]
      ]

  finished :
      (x r : JobAccepted) (u t : Db)
      → pure x u ≡ ok (r, t)
      → ◌≡◌ {A = Result (JobAccepted × Db)} (ok (x, u)) (ok (r, t))
  unfolding pure
  finished x r u t h = h

  -- the rows of a new job
  insert_row-Used :
      (job : Job) (now : ℕ) (s u t : Db) (r : JobAccepted)
      → job.project_id ≡ request.project_id
      → u.projects ≡ s.projects
      → u.keys ≡ s.keys
      → key_row request.project_id k s ≡ none
      → insert_row job (some k) (request_fingerprint request) now u ≡ ok (r, t)
      → Used request.project_id k (request_fingerprint request) r s t
  unfolding insert_row guarded add_planning_work
  insert_row-Used job now s u t r pj pe ke none_yet h =
      let (a1, (u1, (h1, r1))) = bind-ok _ _ u r t h in
      let (a2, (u2, (h2, r2))) = bind-ok _ _ u1 r t r1 in
      let (a3, (u3, (h3, r3))) = bind-ok _ _ u2 r t r2 in
      let (a4, (u4, (h4, r4))) = bind-ok _ _ u2 a3 u3 (relabel-ok _ a3 u3 h3) in
      let (f, j1, k1, p1) = add_job-ok a1 u u1 job h1 in
      let (j2, k2, p2) = append_event-ok a2 u1 u2 _ _ _ _ _ h2 in
      let (j4, k4, p4) = add_work-ok a4 u2 u4 _ _ _ _ _ h4 in
      let (j3, k3, p3) = add_key-ok a3 u4 u3 _ r4 in
      let row : IdempotencyKey = record {
        project_id = job.project_id;
        key = k;
        request_hash = request_fingerprint request;
        job_id = job.id;
      } in
      let same : (row.project_id == request.project_id && str_eq row.key k) ≡ true =
        rw ((==_iff job.project_id request.project_id).1 pj, str_same k) in
      let keys : u3.keys ≡ s.keys ++ row ∷ [] = rw (k3, k4, k2, k1, ke) in
      let jobs : u3.jobs ≡ u.jobs ++ job ∷ [] = rw (j3, j4, j2, j1) in
      carry s (accepted job) r u3 t (finished _ _ _ _ r3) (record {
        projects = rw (p3, p4, p2, p1, pe);
        row = row;
        row_found = rw keys (
            first-appended (λ w. w.project_id == request.project_id && str_eq w.key k) s.keys row
              none_yet same);
        hash = refl;
        job = job;
        job_found = rw jobs (find_job-appended u.jobs job f);
        answer = refl;
      })

  sourced-Used :
      (job_id source_id : ℕ) (canonical : CanonicalUrl) (correlation_id now : ℕ) (s t : Db)
      (r : JobAccepted)
      → key_row request.project_id k s ≡ none
      → insert_job request
          (some k)
          (request_fingerprint request)
          job_id
          source_id
          canonical
          correlation_id
          now
          s
        ≡ ok (r, t)
      → Used request.project_id k (request_fingerprint request) r s t
  unfolding insert_job new_job ◌>>=◌ Sourced
  sourced-Used job_id source_id canonical correlation_id now s t r none_yet h =
      elim (ensure_source-cases source_id canonical s) [
        | inl e ↦ cc (rw e at h)
        | inr (id, (u, (e, pe, ke))) ↦
            insert_row-Used (new_job job_id id request correlation_id now) now s u t r refl pe ke
              none_yet (rw e at h)
      ]

  resolved :
      (x y : Result (JobAccepted × Db)) (r : JobAccepted) (t : Db)
      → y ≡ err integrity_error
      → resolve x y ≡ ok (r, t)
      → x ≡ ok (r, t)
  resolved (ok x) y r t e h = h
  resolved (err flush_conflict) y r t e h = cc (e, h)
  resolved (err _) y r t e h = cc h

  submit-Used :
      (job_id source_id correlation_id now : ℕ) (s t : Db) (r : JobAccepted)
      → key_row request.project_id k s ≡ none
      → submit validate_initial_url request_fingerprint request
          (some k)
          job_id
          source_id
          correlation_id
          now
          s
        ≡ ok (r, t)
      → Used request.project_id k (request_fingerprint request) r s t
  unfolding submit on_conflict after_conflict some_or ◌>>=◌
  submit-Used job_id source_id correlation_id now s t r none_yet h =
      elim (Option-cases (validate_initial_url request.source_url)) [
        | inl e ↦ cc (rw e at h)
        | inr (canonical, e) ↦
            sourced-Used job_id source_id canonical correlation_id now s t r none_yet
              (resolved _ _ r t (rw none_yet) (rw e at h))
      ]

  -- what the first success leaves
  pub create_job-Used :
      (job_id source_id correlation_id now : ℕ) (s t : Db) (r : JobAccepted)
      → create_job validate_initial_url request_fingerprint request principal_id
          (some k)
          job_id
          source_id
          correlation_id
          now
          s
        ≡ ok (r, t)
      → ((project : Project) × (first (owns request.project_id principal_id) s.projects
            ≡ some project))
        × Used request.project_id k (request_fingerprint request) r s t
  unfolding create_job assert_project_access some_or ◌>>=◌
  create_job-Used job_id source_id correlation_id now s t r h =
      elim (Option-cases (first (owns request.project_id principal_id) s.projects)) [
        | inl e ↦ cc (rw e at h)
        | inr (project, e) ↦ (
          (project, e),
          elim (Option-cases (key_row request.project_id k s)) [
            | inl n ↦
                submit-Used job_id source_id correlation_id now s t r n (rw (e, given, n) at h)
            | inr (row, n) ↦ let (q, d) = replay-Used s row r t n (rw (e, given, n) at h) in rw q d
          ],
        )
      ]
