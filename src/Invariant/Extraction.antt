-- ===== src/Invariant/Extraction.antt =====
-- The extraction methods keep the invariant.
use web_data_extraction_engi.Prelude.{ℕ, String, List, [], ◌∷◌, Option}
use web_data_extraction_engi.Store.{Job, Command, PageExtraction}
use web_data_extraction_engi.Service.Columns.{Failure}
use web_data_extraction_engi.Service.Extraction.{
  ExtractionOperation, ExtractionResult, claim_extraction, persist_record, persist_records,
  append_warnings, queue_extraction_page, hand_to_validation, complete_extraction_page,
  mark_extraction, fail_extraction,
}
use web_data_extraction_engi.Invariant.Rules.{Keeps, Keeps-bind}
use web_data_extraction_engi.Invariant.Lifecycle.{service_rules}

pub Keeps-claim_extraction :
    (c : Command) (worker_id : String) (lease_ms now : ℕ)
    → Keeps (claim_extraction c worker_id lease_ms now)
unfolding claim_extraction
Keeps-claim_extraction c worker_id lease_ms now = search service_rules depth 30

module _ (op : ExtractionOperation) where
  Keeps-persist_record :
      (ids : ℕ → ℕ) (identity : String) (n : ℕ) → Keeps (persist_record op ids identity n)
  unfolding persist_record
  Keeps-persist_record ids identity n = search service_rules depth 20

  Keeps-persist_records :
      (ids : ℕ → ℕ) (l : List String) (n : ℕ) → Keeps (persist_records op ids l n)
  unfolding persist_records
  Keeps-persist_records ids [] n = search service_rules
  Keeps-persist_records ids (identity ∷ rest) n =
      Keeps-bind _ _ (Keeps-persist_record ids identity n) (λ m. Keeps-persist_records ids rest m)

  Keeps-append_warnings : (l : List String) → Keeps (append_warnings op l)
  unfolding append_warnings
  Keeps-append_warnings [] = search service_rules
  Keeps-append_warnings (w ∷ rest) =
      Keeps-bind _ _ (search service_rules) (λ _. Keeps-append_warnings rest)

  Keeps-queue_extraction_page :
      (job : Job) (page_id now : ℕ) → Keeps (queue_extraction_page job op page_id now)
  unfolding queue_extraction_page
  Keeps-queue_extraction_page job page_id now = search service_rules

  Keeps-hand_to_validation :
      (job : Job) (run_id now : ℕ) → Keeps (hand_to_validation job op run_id now)
  unfolding hand_to_validation
  Keeps-hand_to_validation job run_id now = search service_rules depth 20

  pub Keeps-complete_extraction_page :
      (r : ExtractionResult) (server_max_records : ℕ) (ids : ℕ → ℕ) (run_id now : ℕ)
      → Keeps (complete_extraction_page op r server_max_records ids run_id now)
  unfolding complete_extraction_page
  Keeps-complete_extraction_page r server_max_records ids run_id now =
      search
        (
          service_rules, Keeps-persist_records, Keeps-append_warnings, Keeps-queue_extraction_page,
          Keeps-hand_to_validation,
        )
        depth 30

Keeps-mark_extraction :
    (id : Option ℕ) (status : PageExtraction) → Keeps (mark_extraction id status)
unfolding mark_extraction
Keeps-mark_extraction id status = search service_rules

pub Keeps-fail_extraction :
    (c : Command) (e : Failure) (max_attempts now : ℕ)
    → Keeps (fail_extraction c e max_attempts now)
unfolding fail_extraction
Keeps-fail_extraction c e max_attempts now = search (service_rules, Keeps-mark_extraction) depth 30
