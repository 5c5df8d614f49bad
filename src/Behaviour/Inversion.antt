-- ===== src/Behaviour/Inversion.antt =====
-- What a committed transaction says of its parts.
use web_data_extraction_engi.Prelude.{
  ℕ, ◌≡◌, refl, List, some, Bool, true, false, ==_iff, if◌then◌else◌,
}
use web_data_extraction_engi.Store.{Db, Job}
use web_data_extraction_engi.Store.Tx.{Tx, Result, ok, err, continue, ◌>>=◌}
use web_data_extraction_engi.Store.Jobs.{find_job, update_job, keep_id, find_job-update_job}
use web_data_extraction_engi.Invariant.Frame.{refused}

module _ {A B : Type 0} where
  continue-ok :
      (r : Result (A × Db)) (f : A → Tx B) (b : B) (u : Db)
      → continue r f ≡ ok (b, u)
      → (a : A) × ((t : Db) × ((r ≡ ok (a, t)) × (f a t ≡ ok (b, u))))
  continue-ok (ok (a, t)) f b u h = (a, (t, (refl, h)))
  continue-ok (err e) f b u h = cc h

  pub bind-ok :
      (m : Tx A) (f : A → Tx B) (s : Db) (b : B) (u : Db)
      → (m >>= f) s ≡ ok (b, u)
      → (a : A) × ((t : Db) × ((m s ≡ ok (a, t)) × (f a t ≡ ok (b, u))))
  unfolding ◌>>=◌
  bind-ok m f s b u h = continue-ok (m s) f b u h

-- a transaction has one outcome
pub ok_unique :
    {A : Type 0} (r : Result (A × Db)) (a b : A) (s t : Db)
    → r ≡ ok (a, s)
    → r ≡ ok (b, t)
    → (a ≡ b) × (s ≡ t)
ok_unique (ok x) a b s t h k = (cc (h, k), cc (h, k))
ok_unique (err e) a b s t h k = cc h

-- the row that a write leaves
pub find_job-updated :
    (id : ℕ) (f : Job → Job) (js : List Job) (job : Job)
    → find_job id js ≡ some job
    → find_job id (update_job id f js) ≡ some (keep_id f job)
find_job-updated id f js job e = rw (find_job-update_job, (==_iff id id).1 refl, e)

-- an insertion that committed
pub insert-ok :
    (clash : Bool) (a : Unit {0}) (t u : Db)
    → (if clash then refused else ok (tt, t)) ≡ ok (a, u)
    → (clash ≡ false) × (u ≡ t)
insert-ok true a t u h = cc h
insert-ok false a t u h = (refl, cc h)
