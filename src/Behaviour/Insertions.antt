-- ===== src/Behaviour/Insertions.antt =====
-- Insertions at the end of a table, and what those of `create_job` that committed say.
use web_data_extraction_engi.Prelude.{
  ℕ, ◌≡◌, refl, Bool, true, false, List, [], ◌∷◌, ◌++◌, Option, none, some, String, first, is_some,
  ◌==◌, Bool-cases, inl, inr, arith,
}
use web_data_extraction_engi.Store.{Db, Job, IdempotencyKey, Command, CommandType}
use web_data_extraction_engi.Domain.{JobStatus}
use web_data_extraction_engi.Store.Tx.{Result, ok, err, integrity_error, relabel}
use web_data_extraction_engi.Store.Jobs.{find_job}
use web_data_extraction_engi.Store.Events.{append_event}
use web_data_extraction_engi.Store.Tables.{add_job, add_key, add_work}
use web_data_extraction_engi.Behaviour.Inversion.{insert-ok}

pub first-appended :
    {A : Type 0} (p : A → Bool) (xs : List A) (y : A)
    → first p xs ≡ none
    → p y ≡ true
    → first p (xs ++ y ∷ []) ≡ some y
first-appended p [] y h q = rw q
first-appended p (x ∷ xs) y h q = elim (Bool-cases (p x)) [
  | inl e ↦ cc (rw e at h)
  | inr e ↦ rw e (first-appended p xs y (rw e at h) q)
]

pub find_job-appended :
    (js : List Job) (j : Job) → find_job j.id js ≡ none → find_job j.id (js ++ j ∷ []) ≡ some j
unfolding find_job
find_job-appended [] j h = ground arith
find_job-appended (x ∷ js) j h = elim (Bool-cases (x.id == j.id)) [
  | inl e ↦ cc (rw e at h)
  | inr e ↦ rw e (find_job-appended js j (rw e at h))
]

-- what the transactions of `insert_job` that committed say
module _ (a : Unit {0}) (s t : Db) where
  pub add_job-ok :
      (j : Job)
      → add_job j s ≡ ok (a, t)
      → (find_job j.id s.jobs ≡ none)
        × (t.jobs ≡ s.jobs ++ j ∷ [])
        × (t.keys ≡ s.keys)
        × (t.projects ≡ s.projects)
  unfolding add_job
  add_job-ok j h =
      let (c, e) =
        insert-ok (is_some (find_job j.id s.jobs)) a (record s { jobs = s.jobs ++ j ∷ [] }) t h in
      (is_some-none (find_job j.id s.jobs) c, rw e, rw e, rw e)
    where
      is_some-none : (o : Option Job) → is_some o ≡ false → o ≡ none
      is_some-none none h = refl
      is_some-none (some x) h = cc h

  pub append_event-ok :
      (id : ℕ) (e : String) (stage : JobStatus) (percent : Option ℕ) (c : ℕ)
      → append_event id e stage percent c s ≡ ok (a, t)
      → (t.jobs ≡ s.jobs) × (t.keys ≡ s.keys) × (t.projects ≡ s.projects)
  unfolding append_event
  append_event-ok id e stage percent c h = (cc h, cc h, cc h)

  pub add_work-ok :
      (w : CommandType) (c : Command) (n m now : ℕ)
      → add_work w c n m now s ≡ ok (a, t)
      → (t.jobs ≡ s.jobs) × (t.keys ≡ s.keys) × (t.projects ≡ s.projects)
  unfolding add_work
  add_work-ok w c n m now h = let (_, e) = insert-ok _ a _ t h in (rw e, rw e, rw e)

  pub add_key-ok :
      (row : IdempotencyKey)
      → add_key row s ≡ ok (a, t)
      → (t.jobs ≡ s.jobs) × (t.keys ≡ s.keys ++ row ∷ []) × (t.projects ≡ s.projects)
  unfolding add_key
  add_key-ok row h = let (_, e) = insert-ok _ a _ t h in (rw e, rw e, rw e)

pub relabel-ok :
    (r : Result (Unit {0} × Db)) (a : Unit {0}) (t : Db) → relabel r ≡ ok (a, t) → r ≡ ok (a, t)
relabel-ok (ok x) a t h = h
relabel-ok (err integrity_error) a t h = cc h
relabel-ok (err _) a t h = h
