-- ===== src/Queries/Resuming.antt =====
-- services.py: `events_after`, from which a client that was cut off goes on.
use web_data_extraction_engi.Prelude.{
  ℕ, zero, suc, ◌-◌, ◌≤◌, ◌≡◌, refl, ap, ◌∙◌, sym, Bool, true, ◌&&◌, List, [], ◌∷◌, ◌++◌, take,
  drop, where_, All, arith, ltb, leb, ◌==◌, Bool-cases, inl, inr,
}
use web_data_extraction_engi.Prelude.Sorting.{sort_by, insert_by, IsSorted}
use web_data_extraction_engi.Store.{Project, ProgressEvent}
use web_data_extraction_engi.Store.Events.{IsNumbered, events_of}
use web_data_extraction_engi.System.{Externals, Call, run, initial}
use web_data_extraction_engi.System.Invariants.{run-Valid}
use web_data_extraction_engi.Queries.{events_after}

module _ {A : Type 0} (le : A → A → Bool) where
  insert_by-first : (x : A) (xs : List A) → All (λ y. le x y ≡ true) xs → insert_by le x xs ≡ x ∷ xs
  unfolding insert_by
  insert_by-first x [] h = refl
  insert_by-first x (y ∷ xs) h = rw h.0

  sort_by-sorted : (xs : List A) → IsSorted le xs → sort_by le xs ≡ xs
  unfolding sort_by
  sort_by-sorted [] h = refl
  sort_by-sorted (x ∷ xs) h = rw (sort_by-sorted xs h.1) (insert_by-first x xs h.0)

abbrev in_order : ProgressEvent → ProgressEvent → Bool
in_order e f = leb e.sequence_no f.sequence_no

All-numbered :
    (k n : ℕ) (e : ProgressEvent) (es : List ProgressEvent)
    → e.sequence_no ≤ k
    → IsNumbered k es
    → All (λ f. in_order e f ≡ true) es
All-numbered k n e [] h s = tt
All-numbered k n e (f ∷ es) h s = (ground arith, All-numbered (suc k) n e es (omega arith) s.1)

numbered-IsSorted : (k : ℕ) (es : List ProgressEvent) → IsNumbered k es → IsSorted in_order es
numbered-IsSorted k [] s = tt
numbered-IsSorted k (e ∷ es) s =
    (All-numbered (suc k) 0 e es (omega arith) s.1, numbered-IsSorted (suc k) es s.1)

drop-IsNumbered :
    (n k : ℕ) (es : List ProgressEvent) → IsNumbered k es → IsSorted in_order (drop n es)
drop-IsNumbered zero k es s = numbered-IsSorted k es s
drop-IsNumbered (suc n) k [] s = tt
drop-IsNumbered (suc n) k (e ∷ es) s = drop-IsNumbered n (suc k) es s.1

drop-nil : {A : Type 0} (n : ℕ) → drop {A = A} n [] ≡ []
drop-nil zero = refl
drop-nil (suc n) = refl

where_-later :
    (n k : ℕ) (es : List ProgressEvent)
    → IsNumbered k es
    → where_ (λ e. ltb n e.sequence_no) es ≡ drop (n - k) es
where_-later n k [] s = sym (drop-nil (n - k))
where_-later n k (e ∷ es) s =
    let rest = where_-later n (suc k) es s.1 in
    elim (Bool-cases (ltb n e.sequence_no)) [
      | inl new ↦
          let z : n - k ≡ 0 = ground arith in
          let z' : n - suc k ≡ 0 = ground arith in rw (new, z) (ap (λ l. e ∷ l) (rw z' at rest))
      | inr old ↦ let z : n - k ≡ suc (n - suc k) = ground arith in rw (old, z) rest
    ]

-- the rows of the query are those of the job after the number
where_-both :
    (id n : ℕ) (es : List ProgressEvent)
    → where_ (λ e. e.job_id == id && ltb n e.sequence_no) es
      ≡ where_ (λ e. ltb n e.sequence_no) (events_of id es)
where_-both id n [] = refl
where_-both id n (e ∷ es) = ground (arith, where_-both id n es)

take-append-drop : {A : Type 0} (n : ℕ) (xs : List A) → take n xs ++ drop n xs ≡ xs
take-append-drop zero xs = refl
take-append-drop (suc n) [] = refl
take-append-drop (suc n) (x ∷ xs) = rw (take-append-drop n xs)

-- After any calls on tables without jobs: a client that has the first n events of a job, and asks for
-- the events after the number n, has all events of the job, each once and in the order in which they
-- were appended.
pub events_after-resumes :
    (x : Externals) (calls : List (ℕ × Call)) (projects : List Project) (id n : ℕ)
    → let db = run x calls (initial projects) in
      take n (events_of id db.events) ++ events_after id n db ≡ events_of id db.events
unfolding events_after
events_after-resumes x calls projects id n =
    let db = run x calls (initial projects) in
    let numbered = (run-Valid x calls projects).numbered id in
    let found = where_-both id n db.events ∙ where_-later n 0 (events_of id db.events) numbered in
    let m : n - 0 ≡ n = omega arith in
    rw
      (
        found,
        m,
        sort_by-sorted in_order (drop n (events_of id db.events))
            (drop-IsNumbered n 0 (events_of id db.events) numbered),
      )
      (take-append-drop n (events_of id db.events))
