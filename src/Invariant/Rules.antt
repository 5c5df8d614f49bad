-- ===== src/Invariant/Rules.antt =====
-- `Keeps m`: from a valid store the transaction `m`, if it commits, leads to a valid store by
-- allowed changes. One rule for each way to build a transaction.
use web_data_extraction_engi.Prelude.{Bool, true, false, Option, none, some, maybe, if◌then◌else◌}
use web_data_extraction_engi.Store.{Db}
use web_data_extraction_engi.Store.Tx.{
  Tx, Error, Result, ok, err, pure, raise, gets, some_or, continue, ◌>>=◌,
}
use web_data_extraction_engi.Invariant.Tables.{Advance, Advance-refl, Advance-trans}

abbrev pub Commits : {A : Type 0} → Db → Result (A × Db) → Type 0
Commits s (ok (a, t)) = Advance s t
Commits s (err e) = Unit

pub record Keeps {A : Type 0} (m : Tx A) : Type 0 where
  pub at : (s : Db) → Commits s (m s)

module _ {A : Type 0} where
  pub Keeps-pure : (a : A) → Keeps (pure a)
  unfolding pure
  Keeps-pure a = record { at = λ s. Advance-refl s }

  pub Keeps-raise : (e : Error) → Keeps (raise {A = A} e)
  unfolding raise
  Keeps-raise e = record { at = λ s. tt }

  pub Keeps-gets : (f : Db → A) → Keeps (gets f)
  unfolding gets
  Keeps-gets f = record { at = λ s. Advance-refl s }

  pub Keeps-if : (b : Bool) (m n : Tx A) → Keeps m → Keeps n → Keeps (if b then m else n)
  Keeps-if true m n km kn = km
  Keeps-if false m n km kn = kn

  pub Keeps-some_or : (e : Error) (o : Option A) → Keeps (some_or e o)
  unfolding some_or
  Keeps-some_or e none = Keeps-raise e
  Keeps-some_or e (some a) = Keeps-pure a

after : {B : Type 0} (s t : Db) (r : Result (B × Db)) → Advance s t → Commits t r → Commits s r
after s t (ok (b, u)) p q = Advance-trans p q
after s t (err e) p q = tt

module _ {A B : Type 0} where
  pub Keeps-maybe :
      (o : Option A) (m : Tx B) (f : A → Tx B)
      → Keeps m
      → ((a : A) → Keeps (f a))
      → Keeps (maybe o m f)
  Keeps-maybe none m f km kf = km
  Keeps-maybe (some a) m f km kf = kf a

  continue_at :
      (s : Db) (r : Result (A × Db)) (f : A → Tx B)
      → Commits s r
      → ((a : A) → Keeps (f a))
      → Commits s (continue r f)
  continue_at s (err e) f h kf = tt
  continue_at s (ok (a, t)) f h kf = after s t (f a t) h ((kf a).at t)

  pub Keeps-bind : (m : Tx A) (f : A → Tx B) → Keeps m → ((a : A) → Keeps (f a)) → Keeps (m >>= f)
  unfolding ◌>>=◌
  Keeps-bind m f km kf = record { at = λ s. continue_at s (m s) f (km.at s) kf }

pub ruleset keeps_rules =
    (Keeps-pure, Keeps-raise, Keeps-gets, Keeps-some_or, Keeps-if, Keeps-maybe, Keeps-bind)
