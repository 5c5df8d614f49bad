-- ===== src/Worker/Errors.antt =====
-- The exceptions of planner_errors.py, browser_errors.py, discovery_errors.py, extraction_errors.py,
-- validation_errors.py and export_errors.py, and how worker.py maps one to another.
use web_data_extraction_engi.Prelude.{Bool, true, false, String, str_in, if◌then◌else◌, [], ◌∷◌}
use web_data_extraction_engi.Service.Columns.{Failure}

pub data PlannerError : Type 0 where
  provider_error invalid_output schema_error timeout rate_limited unavailable : PlannerError
  not_configured policy_rejected : PlannerError

abbrev pub planner_code : PlannerError → String
planner_code PlannerError.provider_error = "PLANNER_PROVIDER_ERROR"
planner_code PlannerError.invalid_output = "PLANNER_INVALID_OUTPUT"
planner_code PlannerError.schema_error = "PLANNER_SCHEMA_ERROR"
planner_code PlannerError.timeout = "PLANNER_TIMEOUT"
planner_code PlannerError.rate_limited = "PLANNER_RATE_LIMITED"
planner_code PlannerError.unavailable = "PLANNER_UNAVAILABLE"
planner_code PlannerError.not_configured = "PLANNER_UNAVAILABLE"
planner_code PlannerError.policy_rejected = "PLANNER_POLICY_REJECTED"

abbrev pub planner_retryable : PlannerError → Bool
planner_retryable PlannerError.timeout = true
planner_retryable PlannerError.rate_limited = true
planner_retryable PlannerError.unavailable = true
planner_retryable _ = false

unfoldable pub planner_failure : PlannerError → String → Failure
planner_failure e message = record {
  code = planner_code e;
  message = message;
  retryable = planner_retryable e;
}

pub data BrowserError : Type 0 where
  launch_failed browser_timeout navigation_timeout navigation_failed browser_crashed : BrowserError
  page_crashed browser_cancelled resource_limit download_too_large : BrowserError
  -- the policy's code
  policy_blocked : String → BrowserError

abbrev pub browser_code : BrowserError → String
browser_code BrowserError.launch_failed = "BROWSER_LAUNCH_FAILED"
browser_code BrowserError.browser_timeout = "BROWSER_TIMEOUT"
browser_code BrowserError.navigation_timeout = "NAVIGATION_TIMEOUT"
browser_code BrowserError.navigation_failed = "NAVIGATION_FAILED"
browser_code BrowserError.browser_crashed = "BROWSER_CRASHED"
browser_code BrowserError.page_crashed = "PAGE_CRASHED"
browser_code BrowserError.browser_cancelled = "BROWSER_CANCELLED"
browser_code BrowserError.resource_limit = "RESOURCE_LIMIT_EXCEEDED"
browser_code BrowserError.download_too_large = "DOWNLOAD_TOO_LARGE"
browser_code (BrowserError.policy_blocked code) = code

-- the classes below `RetryableOperationError`; the others stand below `BrowserEngineError`
abbrev pub browser_retryable : BrowserError → Bool
browser_retryable BrowserError.launch_failed = true
browser_retryable BrowserError.navigation_failed = true
browser_retryable BrowserError.browser_crashed = true
browser_retryable BrowserError.page_crashed = true
browser_retryable _ = false

-- `isinstance(error, BrowserEngineError)`
abbrev pub is_engine_error : BrowserError → Bool
is_engine_error BrowserError.launch_failed = false
is_engine_error BrowserError.navigation_failed = false
is_engine_error BrowserError.browser_crashed = false
is_engine_error BrowserError.page_crashed = false
is_engine_error _ = true

abbrev pub is_browser_cancelled : BrowserError → Bool
is_browser_cancelled BrowserError.browser_cancelled = true
is_browser_cancelled _ = false

unfoldable pub browser_failure : BrowserError → String → Failure
browser_failure e message = record {
  code = browser_code e;
  message = message;
  retryable = browser_retryable e;
}

abbrev pub is_timeout : BrowserError → Bool
is_timeout e = str_in (browser_code e) ("BROWSER_TIMEOUT" ∷ "NAVIGATION_TIMEOUT" ∷ [])

abbrev pub is_blocked : BrowserError → Bool
is_blocked e = str_in (browser_code e) (
    "URL_POLICY_BLOCKED" ∷ "DOMAIN_NOT_ALLOWED" ∷ "REDIRECT_BLOCKED" ∷ "RESOURCE_LIMIT_EXCEEDED"
    ∷ [])

abbrev pub named : String → String → Bool → Failure
named code message retryable = record { code = code; message = message; retryable = retryable }

-- `_discovery_error`
unfoldable pub discovery_error : BrowserError → Failure
discovery_error e =
    if is_browser_cancelled e
    then named "DISCOVERY_CANCELLED" "Discovery navigation was cancelled safely." false
    else if is_timeout e
    then named "DISCOVERY_TIMEOUT" "Discovery navigation timed out." true
    else if is_blocked e
    then named "DISCOVERY_POLICY_BLOCKED"
        "Discovery navigation was blocked by the existing browser policy." false
    else if str_in (browser_code e) ("NAVIGATION_FAILED" ∷ "PAGE_CRASHED" ∷ [])
    then named "DISCOVERY_NAVIGATION_FAILED" "Discovery navigation could not complete." true
    else named "DISCOVERY_BROWSER_FAILED" "Discovery browser operation failed." true

-- `_extraction_error`
unfoldable pub extraction_error : BrowserError → Failure
extraction_error e =
    if is_browser_cancelled e
    then named "EXTRACTION_CANCELLED" "Extraction navigation was cancelled safely." false
    else if is_timeout e
    then named "EXTRACTION_TIMEOUT" "Extraction navigation timed out." true
    else if is_blocked e
    then named "EXTRACTION_POLICY_BLOCKED"
        "Extraction navigation was blocked by the existing browser policy." false
    else named "EXTRACTION_BROWSER_FAILED" "Extraction browser operation failed." true

-- `ExtractionBrowserFailed` of a capture without a document
abbrev pub no_document : Failure
no_document =
    named "EXTRACTION_BROWSER_FAILED" "The browser did not return a bounded extraction document."
      true

-- `ValidationInfrastructureError` of `run_validation`
abbrev pub validation_infrastructure : Failure
validation_infrastructure =
    named "VALIDATION_INFRASTRUCTURE_FAILED" "Validation infrastructure failed safely." true

-- the errors of `run_export`; the first is made not retryable by the handler
abbrev pub export_timeout : Failure
export_timeout =
    named "EXPORT_INFRASTRUCTURE_FAILED" "Export generation exceeded its configured time limit."
      false

abbrev pub export_infrastructure : Failure
export_infrastructure =
    named "EXPORT_INFRASTRUCTURE_FAILED" "Export infrastructure failed safely." true

abbrev pub export_serialization : Failure
export_serialization = named "EXPORT_SERIALIZATION_FAILED" "Export rendering failed safely." false

abbrev pub export_output_too_large : Failure
export_output_too_large =
    named "EXPORT_TOO_LARGE" "Generated export exceeds the configured output limit." false

abbrev pub export_dataset_too_large : Failure
export_dataset_too_large =
    named "EXPORT_TOO_LARGE" "Export dataset exceeds the configured record limit." false

abbrev pub export_unsupported : Failure
export_unsupported =
    named "EXPORT_UNSUPPORTED_FORMAT" "The requested export format is not supported." false

-- `StorageError` of storage.py, which has no code of its own
abbrev pub storage_error : Failure
storage_error = named "StorageError" "Supabase Storage request failed." false
