-- ===== src/Tests/Dispatch.antt =====
-- The theorem about the dispatcher at a concrete input.
use mathlib.Core.Option.{some-injective}
use web_data_extraction_engi.Prelude.{
  ℕ, ◌≤◌, ◌-◌, ◌*◌, ◌≡◌, refl, sym, Bool, true, count_if, ◌||◌, List, [], ◌∷◌, Option, none, some,
  any, arith,
}
use web_data_extraction_engi.Store.{
  Db, Command, CommandType, run_planning, WorkOutbox, OperationKey, phase_key, discovery_source_key,
  discovery_page_key, extraction_page_key, validation_key, export_key,
}
use web_data_extraction_engi.Store.Tables.{key_eq}
use web_data_extraction_engi.System.{initial}
use web_data_extraction_engi.Dispatch.{dispatches, same_row}
use web_data_extraction_engi.Prelude.Counting.{Unique}
use web_data_extraction_engi.Dispatch.Pending.{due}
use web_data_extraction_engi.Dispatch.Delivery.{Sound, dispatches-due}
use web_data_extraction_engi.Demo.{projects, command}

-- a queue that keeps the keys of what it took
abbrev enqueue_job : CommandType → Command → List OperationKey → Option (List OperationKey)
enqueue_job t c q = some (c.operation_key ∷ q)

abbrev holds : List OperationKey → OperationKey → Bool
holds q k = any (key_eq k) q

holds_taken :
    (t : CommandType) (c : Command) (q r : List OperationKey)
    → enqueue_job t c q ≡ some r
    → (k : OperationKey) → (key_eq k c.operation_key || holds q k) ≡ true
    → holds r k ≡ true
holds_taken t c q r e k h = rw (sym (some-injective _ _ e)) h

abbrev waiting : ℕ → WorkOutbox
waiting n = record {
  command_type = run_planning;
  command = record command { operation_key = phase_key n "planning" 1 };
  attempt = 1;
  available_at = 100;
  published_at = none;
  created_at = 100;
}

abbrev tables : Db
tables = record (initial projects) { outbox = waiting 5 ∷ waiting 6 ∷ waiting 7 ∷ [] }

different_keys :
    (k : OperationKey) → count_if (λ r. key_eq r.command.operation_key k) tables.outbox ≤ 1
different_keys (phase_key j p n) = ground arith
different_keys (discovery_source_key j) = omega arith
different_keys (discovery_page_key j p) = omega arith
different_keys (extraction_page_key j p v) = omega arith
different_keys (validation_key j r) = omega arith
different_keys (export_key e n) = omega arith

different : Unique same_row tables.outbox
different r = different_keys r.command.operation_key

tables-Sound : Sound enqueue_job holds holds_taken ([], tables)
tables-Sound = record {
  unique = different;
  handed = ((λ p. cc p), ((λ p. cc p), ((λ p. cc p), tt)));
}

dispatches-due_example :
    Sound enqueue_job holds holds_taken (dispatches enqueue_job 2 100 2 ([], tables))
    × (due 100 (dispatches enqueue_job 2 100 2 ([], tables)).1.outbox
        ≡ due 100 tables.outbox - 2 * 2)
dispatches-due_example =
    dispatches-due enqueue_job holds holds_taken (λ t c q. (c.operation_key ∷ q, refl)) 100 2 2
      ([], tables) tables-Sound
