-- ===== src/Dispatch/Delivery.antt =====
-- queue.py: that the dispatcher publishes every pending row, and none without its command.
use web_data_extraction_engi.Prelude.{
  ℕ, zero, suc, ◌-◌, ◌*◌, ◌≡◌, refl, ◌∙◌, Bool, true, ◌||◌, List, [], ◌∷◌, Option, some, any, All,
  is_some, arith, Bool-cases, Option-cases, inl, inr,
}
use web_data_extraction_engi.Store.{Db, Command, CommandType, WorkOutbox, OperationKey}
use web_data_extraction_engi.Store.Tables.{key_eq}
use web_data_extraction_engi.Dispatch.{
  pending_rows, same_row, mark_published, send, dispatch_pending, dispatch, dispatches,
}
use web_data_extraction_engi.Prelude.Counting.{Unique}
use web_data_extraction_engi.Dispatch.Pending.{due, mark_published-keys, pending_rows-due}

module _ {Queue : Type 0} (enqueue_job : CommandType → Command → Queue → Option Queue)
    (holds : Queue → OperationKey → Bool)
    (takes : (t : CommandType) (c : Command) (q r : Queue)
      → enqueue_job t c q ≡ some r
      → (k : OperationKey) → (key_eq k c.operation_key || holds q k) ≡ true
      → holds r k ≡ true) where
  -- the row is not published, or the queue holds its command
  abbrev pub IsHanded : Queue → WorkOutbox → Type 0
  IsHanded q r = is_some r.published_at ≡ true → holds q r.command.operation_key ≡ true

  send-holds :
      (rows : List WorkOutbox) (q : Queue) (k : OperationKey)
      → holds q k ≡ true
      → holds (send enqueue_job rows q).1 k ≡ true
  unfolding send
  send-holds [] q k h = h
  send-holds (r ∷ rows) q k h = elim (Option-cases (enqueue_job r.command_type r.command q)) [
    | inl e ↦ rw e h
    | inr (q', e) ↦
        rw e (send-holds rows q' k (takes r.command_type r.command q q' e k (ground (arith, h))))
  ]

  send-sent :
      (rows : List WorkOutbox) (q : Queue) (s : WorkOutbox)
      → (send enqueue_job rows q).0 ≡ true
      → any (same_row s) rows ≡ true
      → holds (send enqueue_job rows q).1 s.command.operation_key ≡ true
  unfolding send
  send-sent [] q s ended here = cc here
  send-sent (r ∷ rows) q s ended here =
      elim (Option-cases (enqueue_job r.command_type r.command q)) [
        | inl e ↦ cc (rw e at ended)
        | inr (q', e) ↦ elim (Bool-cases (same_row s r)) [
          | inl same ↦ rw e (
              send-holds rows q' s.command.operation_key
                (takes r.command_type r.command q q' e s.command.operation_key (rw same refl)))
          | inr other ↦ rw e (send-sent rows q' s (rw e at ended) (rw other at here))
        ]
      ]

  mark_published-IsHanded :
      (now : ℕ) (chosen rows : List WorkOutbox) (q : Queue)
      → (send enqueue_job chosen q).0 ≡ true
      → All (IsHanded q) rows
      → All (IsHanded (send enqueue_job chosen q).1) (mark_published now chosen rows)
  unfolding mark_published
  mark_published-IsHanded now chosen [] q ended h = tt
  mark_published-IsHanded now chosen (r ∷ rows) q ended h =
      let rest = mark_published-IsHanded now chosen rows q ended h.1 in
      elim (Bool-cases (any (same_row r) chosen)) [
        | inl e ↦ rw e ((λ p. send-sent chosen q r ended e), rest)
        | inr e ↦ rw e ((λ p. send-holds chosen q r.command.operation_key (h.0 p)), rest)
      ]

  -- what a dispatch keeps: unique keys, and the commands of published rows in the queue
  pub record Sound (s : Queue × Db) : Type 0 where
    pub unique : Unique same_row s.1.outbox
    pub handed : All (IsHanded s.0) s.1.outbox

  module _
      (accepts : (t : CommandType) (c : Command) (q : Queue)
        → (r : Queue) × (enqueue_job t c q ≡ some r))
      (now limit : ℕ) where
    send-accepted : (rows : List WorkOutbox) (q : Queue) → (send enqueue_job rows q).0 ≡ true
    unfolding send
    send-accepted [] q = refl
    send-accepted (r ∷ rows) q =
        let taken = accepts r.command_type r.command q in rw (taken.1) (send-accepted rows taken.0)

    dispatch-due :
        (s : Queue × Db)
        → Sound s
        → Sound (dispatch enqueue_job now limit s)
          × (due now (dispatch enqueue_job now limit s).1.outbox ≡ due now s.1.outbox - limit)
    unfolding dispatch dispatch_pending
    dispatch-due (queue, db) sound =
        let rows = pending_rows now limit db.outbox in
        let ended = send-accepted rows queue in
        rw ended (
          record {
            unique = λ k. rw (mark_published-keys now rows k db.outbox) (sound.unique k);
            handed = mark_published-IsHanded now rows db.outbox queue ended sound.handed;
          },
          pending_rows-due now limit db.outbox sound.unique,
        )

    -- When the queue takes every command and then holds its operation key, when no two rows have one
    -- operation key, and when the queue holds the keys of all published rows: after k dispatches at
    -- one time, each with the same limit, the number of rows due at that time is smaller by k times
    -- the limit, or none is due; the keys are still unique, and the queue holds those of all
    -- published rows.
    pub dispatches-due :
        (k : ℕ) (s : Queue × Db)
        → Sound s
        → Sound (dispatches enqueue_job k now limit s)
          × (due now (dispatches enqueue_job k now limit s).1.outbox
              ≡ due now s.1.outbox - k * limit)
    unfolding dispatches
    dispatches-due zero s sound = (sound, omega arith)
    dispatches-due (suc k) s sound =
        let before = dispatches-due k s sound in
        let after = dispatch-due (dispatches enqueue_job k now limit s) before.0 in
        (after.0, after.1 ∙ rw before.1 (grind arith))
