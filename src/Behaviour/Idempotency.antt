-- ===== src/Behaviour/Idempotency.antt =====
-- A request that is sent again with its idempotency key.
use web_data_extraction_engi.Prelude.{ℕ, ◌≡◌, true, false, Option, some, String, first, str_eq}
use web_data_extraction_engi.Store.{Db}
use web_data_extraction_engi.Store.Tx.{ok, err, ◌>>=◌, some_or, idempotency_conflict}
use web_data_extraction_engi.Service.Lifecycle.{assert_project_access, owns}
use web_data_extraction_engi.Service.Creation.{
  JobCreateRequest, CanonicalUrl, JobAccepted, key_row, accepted_job, replay, create_job,
}
use web_data_extraction_engi.Behaviour.Accepted.{str_same, create_job-Used}

module _ (validate_initial_url : String → Option CanonicalUrl)
    (request_fingerprint : JobCreateRequest → String) (request : JobCreateRequest)
    (principal_id : ℕ) (k : String) (given : str_eq k "" ≡ false) where
  -- If a request with a key that is not empty was accepted, then the same request with that key,
  -- whenever it is sent on the tables it left and whatever UUIDs are drawn, gets the same answer and
  -- changes nothing.
  pub create_job-retried :
      (job_id source_id correlation_id now : ℕ) (s t : Db) (r : JobAccepted)
      → create_job validate_initial_url request_fingerprint request principal_id
          (some k)
          job_id
          source_id
          correlation_id
          now
          s
        ≡ ok (r, t)
      → (job_id' source_id' correlation_id' now' : ℕ)
      → create_job validate_initial_url request_fingerprint request principal_id
          (some k)
          job_id'
          source_id'
          correlation_id'
          now'
          t
        ≡ ok (r, t)
  unfolding create_job assert_project_access replay accepted_job some_or ◌>>=◌
  create_job-retried job_id source_id correlation_id now s t r h job_id' source_id' correlation_id'
        now' =
      let ((project, access), used) =
        create_job-Used validate_initial_url request_fingerprint request principal_id k given job_id
          source_id correlation_id now s t r h in
      let same : str_eq used.row.request_hash (request_fingerprint request) ≡ true =
        rw used.hash (str_same (request_fingerprint request)) in
      rw (used.projects, access, given, used.row_found, same, used.job_found, used.answer)

  -- If a request with a key that is not empty was accepted, then another request of the same
  -- project with that key, whose fingerprint differs, is refused with IDEMPOTENCY_CONFLICT.
  pub create_job-conflict :
      (job_id source_id correlation_id now : ℕ) (s t : Db) (r : JobAccepted)
      → create_job validate_initial_url request_fingerprint request principal_id
          (some k)
          job_id
          source_id
          correlation_id
          now
          s
        ≡ ok (r, t)
      → (other : JobCreateRequest) → other.project_id ≡ request.project_id
      → str_eq (request_fingerprint request) (request_fingerprint other) ≡ false
      → (job_id' source_id' correlation_id' now' : ℕ)
      → create_job validate_initial_url request_fingerprint other principal_id
          (some k)
          job_id'
          source_id'
          correlation_id'
          now'
          t
        ≡ err idempotency_conflict
  unfolding create_job assert_project_access replay some_or ◌>>=◌
  create_job-conflict job_id source_id correlation_id now s t r h other p d job_id' source_id'
        correlation_id' now' =
      let ((project, access), used) =
        create_job-Used validate_initial_url request_fingerprint request principal_id k given job_id
          source_id correlation_id now s t r h in
      let access' : first (owns other.project_id principal_id) t.projects ≡ some project =
        rw (p, used.projects, access) in
      let found : key_row other.project_id k t ≡ some used.row = rw (p, used.row_found) in
      let differs : str_eq used.row.request_hash (request_fingerprint other) ≡ false =
        rw (used.hash, d) in
      rw (access', given, found, differs)
