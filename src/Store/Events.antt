-- ===== src/Store/Events.antt =====
-- The progress events of a job, numbered from 1 (`_append_event` of services.py).
use web_data_extraction_engi.Prelude.{
  ℕ, suc, ◌+◌, max, List, [], ◌∷◌, ◌++◌, Option, String, ◌≡◌, arith, ◌==◌, where_, where_-append,
  length,
}
use web_data_extraction_engi.Domain.{JobStatus}
use web_data_extraction_engi.Store.{ProgressEvent}
use web_data_extraction_engi.Store.Tx.{Tx, ok}

-- `ProgressEvent.job_id == job.id`
abbrev pub events_of : ℕ → List ProgressEvent → List ProgressEvent
events_of id events = where_ (λ e. e.job_id == id) events

-- `func.max(ProgressEvent.sequence_no)`, with 0 where there is no row (`previous or 0`)
abbrev pub max_sequence : List ProgressEvent → ℕ
max_sequence [] = 0
max_sequence (e ∷ es) = max e.sequence_no (max_sequence es)

unfoldable pub append_event : ℕ → String → JobStatus → Option ℕ → ℕ → Tx (Unit {0})
append_event job_id event_type stage percent correlation_id db =
    let event : ProgressEvent = record {
      job_id = job_id;
      sequence_no = max_sequence (events_of job_id db.events) + 1;
      event_type = event_type;
      stage = stage;
      percent = percent;
      correlation_id = correlation_id;
    } in
    ok (tt, record db { events = db.events ++ event ∷ [] })

-- The events carry the numbers from `k + 1` on, in order, without a gap.
abbrev pub IsNumbered : ℕ → List ProgressEvent → Type 0
IsNumbered k [] = Unit
IsNumbered k (e ∷ es) = (e.sequence_no ≡ suc k) × IsNumbered (suc k) es

pub max_sequence-IsNumbered :
    (k : ℕ) (es : List ProgressEvent) → IsNumbered k es → max k (max_sequence es) ≡ k + length es
max_sequence-IsNumbered k [] h = omega arith
max_sequence-IsNumbered k (e ∷ es) h = omega (arith, h.0, max_sequence-IsNumbered (suc k) es h.1)

pub IsNumbered-append :
    (k : ℕ) (es : List ProgressEvent) (e : ProgressEvent)
    → IsNumbered k es
    → e.sequence_no ≡ suc (k + length es)
    → IsNumbered k (es ++ e ∷ [])
IsNumbered-append k [] e h p = omega arith
IsNumbered-append k (x ∷ es) e h p = (h.0, IsNumbered-append (suc k) es e h.1 (omega arith))

pub events_of-append :
    (id : ℕ) (xs ys : List ProgressEvent)
    → events_of id (xs ++ ys) ≡ events_of id xs ++ events_of id ys
events_of-append id xs ys = where_-append (λ e. e.job_id == id) xs ys
