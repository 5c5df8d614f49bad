-- ===== src/Dispatch.antt =====
-- services/api/src/wde_api/queue.py: `OutboxDispatcher.dispatch_pending`, and its call in main.py.
-- The queue is a remote service: its state and `enqueue_job` are arguments.
pub mod Pending
pub mod Delivery
use web_data_extraction_engi.Prelude.{
  ℕ, zero, suc, Bool, true, false, not, ◌&&◌, List, [], ◌∷◌, Option, none, some, map, length, take,
  where_, any, maybe, is_some, leb, if◌then◌else◌,
}
use web_data_extraction_engi.Prelude.Sorting.{sort_by}
use web_data_extraction_engi.Store.{Db, Command, CommandType, WorkOutbox}
use web_data_extraction_engi.Store.Tables.{key_eq}

-- `published_at.is_(None), available_at <= now`
abbrev pub is_pending : ℕ → WorkOutbox → Bool
is_pending now r = not (is_some r.published_at) && leb r.available_at now

abbrev pub by_creation : WorkOutbox → WorkOutbox → Bool
by_creation r s = leb r.created_at s.created_at

unfoldable pub pending_rows : ℕ → ℕ → List WorkOutbox → List WorkOutbox
pending_rows now limit rows = take limit (sort_by by_creation (where_ (is_pending now) rows))

-- rows are told apart by their unique operation keys
abbrev pub same_row : WorkOutbox → WorkOutbox → Bool
same_row r s = key_eq r.command.operation_key s.command.operation_key

-- `item.published_at = now` for each chosen row
unfoldable pub mark_published : ℕ → List WorkOutbox → List WorkOutbox → List WorkOutbox
mark_published now chosen [] = []
mark_published now chosen (r ∷ rows) =
    (if any (same_row r) chosen then record r { published_at = some now } else r)
    ∷ mark_published now chosen rows

module _ {Queue : Type 0} (enqueue_job : CommandType → Command → Queue → Option Queue) where
  -- the rows are sent one after another, until the queue raises
  unfoldable pub send : List WorkOutbox → Queue → Bool × Queue
  send [] queue = (true, queue)
  send (r ∷ rows) queue =
      maybe (enqueue_job r.command_type r.command queue) (false, queue) (λ q. send rows q)

  -- the number of published rows and the tables, or nothing when the queue raises; and the queue,
  -- which keeps what it has been sent before
  unfoldable pub dispatch_pending : ℕ → ℕ → Queue → Db → Option (ℕ × Db) × Queue
  unfolding send pending_rows mark_published
  dispatch_pending now limit queue db =
      let rows = pending_rows now limit db.outbox in
      let sent = send rows queue in
      (
        if sent.0
            then some (length rows, record db { outbox = mark_published now rows db.outbox })
            else none,
        sent.1,
      )

  -- the transaction after the creation of a job: an exception rolls it back and is only logged
  unfoldable pub dispatch : ℕ → ℕ → Queue × Db → Queue × Db
  unfolding dispatch_pending
  dispatch now limit (queue, db) =
      let answer = dispatch_pending now limit queue db in (answer.1, maybe answer.0 db (λ r. r.1))

  -- dispatches at one time, one after another
  unfoldable pub dispatches : ℕ → ℕ → ℕ → Queue × Db → Queue × Db
  unfolding dispatch
  dispatches zero now limit s = s
  dispatches (suc k) now limit s = dispatch now limit (dispatches k now limit s)
