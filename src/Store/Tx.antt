-- ===== src/Store/Tx.antt =====
-- A service method under `async with session.begin()`: it returns its result and the tables, or
-- raises, and then its writes are rolled back, so the error carries no tables.

use web_data_extraction_engi.Prelude.{Option, maybe}
use web_data_extraction_engi.Store.{Db}

-- the exceptions that the services raise, by their `code`, with the driver's `IntegrityError`;
-- `flush_conflict` is an `IntegrityError` of the one flush that a method guards by `try`
pub data Error : Type 0 where
  invalid_transition not_authorized not_found idempotency_conflict : Error
  integrity_error flush_conflict key_error attribute_error unsupported_format export_too_large :
      Error
  invalid_url domain_not_allowed : Error

pub data Result (A : Type 0) : Type 0 where
  ok : A → Result A
  err : Error → Result A

abbrev pub Tx : Type 0 → Type 0
Tx A = Db → Result (A × Db)

module _ {A : Type 0} where
  unfoldable pub pure : A → Tx A
  pure a db = ok (a, db)

  unfoldable pub raise : Error → Tx A
  raise e db = err e

  -- a query
  unfoldable pub gets : (Db → A) → Tx A
  gets f db = ok (f db, db)

module _ {A B : Type 0} where
  abbrev pub continue : Result (A × Db) → (A → Tx B) → Result (B × Db)
  continue (ok (a, db)) f = f a db
  continue (err e) f = err e

  infixl 10 ◌>>=◌ ◌>>◌
  -- opening this opens `pure`, `raise` and `gets` too
  unfoldable pub ◌>>=◌ : Tx A → (A → Tx B) → Tx B
  unfolding pure raise gets
  ◌>>=◌ m f db = continue (m db) f

  abbrev pub ◌>>◌ : Tx A → Tx B → Tx B
  m >> n = m >>= λ _. n

-- the value of a query that must find a row
unfoldable pub some_or : {A : Type 0} → Error → Option A → Tx A
unfolding pure raise
some_or e o = maybe o (raise e) (λ a. pure a)

module _ {A : Type 0} where
  abbrev pub relabel : Result (A × Db) → Result (A × Db)
  relabel (err integrity_error) = err flush_conflict
  relabel r = r

  -- a flush inside `try`
  unfoldable pub guarded : Tx A → Tx A
  guarded m db = relabel (m db)

  abbrev pub resolve : Result (A × Db) → Result (A × Db) → Result (A × Db)
  resolve (err flush_conflict) r = r
  resolve x r = x

  -- `except IntegrityError: await session.rollback(); handler`, for the guarded flush of `m`
  unfoldable pub on_conflict : Tx A → Tx A → Tx A
  on_conflict m handler db = resolve (m db) (handler db)
