-- ===== src/Domain.antt =====
-- services/api/src/wde_api/domain.py: the lifecycle of a job and the retry delay.
pub mod Graph
pub mod Delays
use web_data_extraction_engi.Prelude.{
  ℕ, ◌+◌, ◌-◌, ◌*◌, ◌^◌, ◌/◌, min, Bool, true, false, not, ◌&&◌, ◌||◌, List, [], ◌∷◌, String, any,
  str_eq, if◌then◌else◌, ◌==◌,
}

pub data JobStatus : Type 0 where
  queued planning browser_initializing discovering extracting validating : JobStatus
  ready_for_export exporting completed failed cancelled : JobStatus

abbrev pub all_statuses : List JobStatus
all_statuses =
    queued ∷ planning ∷ browser_initializing ∷ discovering ∷ extracting ∷ validating
    ∷ ready_for_export ∷ exporting ∷ completed ∷ failed ∷ cancelled ∷ []

-- `==` on members of the enum, by their position
abbrev pub position : JobStatus → ℕ
position queued = 0
position planning = 1
position browser_initializing = 2
position discovering = 3
position extracting = 4
position validating = 5
position ready_for_export = 6
position exporting = 7
position completed = 8
position failed = 9
position cancelled = 10

abbrev pub status_eq : JobStatus → JobStatus → Bool
status_eq s t = position s == position t

abbrev pub status_in : JobStatus → List JobStatus → Bool
status_in s ts = any (λ t. status_eq s t) ts

abbrev pub terminal_states : List JobStatus
terminal_states = completed ∷ failed ∷ cancelled ∷ []

-- `set(JobStatus) - TERMINAL_STATES - {JobStatus.QUEUED}`, as a membership test
abbrev pub is_active : JobStatus → Bool
is_active s = not (status_in s terminal_states) && not (status_eq s queued)

abbrev pub allowed_transitions : JobStatus → List JobStatus
allowed_transitions queued = planning ∷ cancelled ∷ []
allowed_transitions planning = browser_initializing ∷ failed ∷ cancelled ∷ []
allowed_transitions browser_initializing = discovering ∷ failed ∷ cancelled ∷ []
allowed_transitions discovering = extracting ∷ failed ∷ cancelled ∷ []
allowed_transitions extracting = validating ∷ failed ∷ cancelled ∷ []
allowed_transitions validating = ready_for_export ∷ exporting ∷ completed ∷ failed ∷ cancelled ∷ []
allowed_transitions ready_for_export = exporting ∷ cancelled ∷ []
allowed_transitions exporting = completed ∷ failed ∷ cancelled ∷ []
allowed_transitions completed = []
allowed_transitions failed = []
allowed_transitions cancelled = []

-- `assert_transition` raises where this is false
abbrev pub is_allowed : JobStatus → JobStatus → Bool
is_allowed source target = status_in target (allowed_transitions source)

-- `EVENT_FOR_TRANSITION.get((source, target), ...)` with the default of `transition`
abbrev pub default_event : JobStatus → String
default_event failed = "job_failed"
default_event completed = "job_completed"
default_event _ = "state_transitioned"

abbrev pub event_for_transition : JobStatus → JobStatus → String
event_for_transition queued planning = "planning_started"
event_for_transition planning browser_initializing = "planning_completed"
event_for_transition browser_initializing discovering = "discovery_started"
event_for_transition completed cancelled = "state_transitioned"
event_for_transition failed cancelled = "state_transitioned"
event_for_transition cancelled cancelled = "state_transitioned"
event_for_transition _ cancelled = "job_cancelled"
event_for_transition _ target = default_event target

-- `retry_delay_seconds`, in milliseconds, with the defaults of its keyword arguments
abbrev pub capped_delay : ℕ → ℕ
capped_delay attempt = min 60_000 (1_000 * 2 ^ (attempt - 1))

-- the upper end of the interval of the added `uniform`, 15% of the delay and at most a second
abbrev pub jitter_bound : ℕ → ℕ
jitter_bound attempt = min 1_000 (capped_delay attempt * 15 / 100)

-- `uniform high` stands for `uniform(0, high)`
unfoldable pub retry_delay : (ℕ → ℕ) → ℕ → ℕ
retry_delay uniform attempt = capped_delay attempt + uniform (jitter_bound attempt)
