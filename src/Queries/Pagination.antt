-- ===== src/Queries/Pagination.antt =====
-- services.py: the pages of `pages` and `results` put together.
use web_data_extraction_engi.Prelude.{
  ℕ, zero, suc, ◌+◌, ◌-◌, ◌*◌, ◌≤◌, ◌≡◌, refl, ap, ◌∙◌, sym, List, [], ◌∷◌, ◌++◌, Option, some,
  String, map, length, take, drop, arith,
}
use mathlib.Core.List.{map-append}
use web_data_extraction_engi.Prelude.Sorting.{sort_by}
use web_data_extraction_engi.Prelude.Counting.{length-sort_by}
use web_data_extraction_engi.Store.{Db, Job, Record}
use web_data_extraction_engi.Store.Tx.{Result, ok, err, some_or, ◌>>=◌}
use web_data_extraction_engi.Service.Lifecycle.{get_job, owned_job}
use web_data_extraction_engi.Dataset.{Value}
use web_data_extraction_engi.Queries.{
  page_of, PageInventoryItem, PageInventoryResponse, inventory_item, inventory, by_depth, job_pages,
  pages, ResultsResponse, ResultItemProjection, result_item, results_response, results, by_creation,
  job_records, completed_run,
}

module _ {A : Type 0} where
  take-more : (m n : ℕ) (xs : List A) → take m xs ++ take n (drop m xs) ≡ take (m + n) xs
  take-more zero n xs = let e : 0 + n ≡ n = omega arith in rw e
  take-more (suc m) n [] = let e : suc m + n ≡ suc (m + n) = omega arith in rw e (nothing n)
    where
      nothing : (k : ℕ) → take {A = A} k [] ≡ []
      nothing zero = refl
      nothing (suc k) = refl
  take-more (suc m) n (x ∷ xs) =
      let e : suc m + n ≡ suc (m + n) = omega arith in rw e (ap (λ l. x ∷ l) (take-more m n xs))

  take-all : (n : ℕ) (xs : List A) → length xs ≤ n → take n xs ≡ xs
  take-all zero [] h = refl
  take-all zero (x ∷ xs) h = absurd (omega arith)
  take-all (suc n) [] h = refl
  take-all (suc n) (x ∷ xs) h = ap (λ l. x ∷ l) (take-all n xs (omega arith))

-- what a client has after the pages 1 to k
pub collect : {B : Type 0} → (ℕ → List B) → ℕ → List B
collect items zero = []
collect items (suc k) = collect items k ++ items (suc k)

module _ {A B : Type 0} (items : ℕ → List B) (g : A → B) (page_size : ℕ) (rows : List A)
    (answers : (k : ℕ) → items (suc k) ≡ map g (page_of (suc k) page_size rows)) where
  collect-take : (k : ℕ) → collect items k ≡ map g (take (k * page_size) rows)
  unfolding collect page_of
  collect-take zero = let e : 0 * page_size ≡ 0 = omega arith in rw e
  collect-take (suc k) =
      let e : suc k * page_size ≡ k * page_size + page_size = grind arith in
      let f : suc k - 1 ≡ k = omega arith in
      let page = rw f at (answers k) in
      rw (e, page, collect-take k)
        (sym (map-append g (take (k * page_size) rows) (take page_size (drop (k * page_size) rows)))
          ∙ ap (map g) (take-more (k * page_size) page_size rows))

  collect-all : (k : ℕ) → length rows ≤ k * page_size → collect items k ≡ map g rows
  collect-all k h = collect-take k ∙ ap (map g) (take-all (k * page_size) rows h)

abbrev pub page_items : Result (PageInventoryResponse × Db) → List PageInventoryItem
page_items (ok (r, t)) = r.items
page_items (err e) = []

abbrev pub result_items :
    {Number : Type 0} → Result (ResultsResponse Number × Db) → List (ResultItemProjection Number)
result_items (ok (r, t)) = r.items
result_items (err e) = []

module _ {Number : Type 0} (payload_fields : Record → List (String × Option (Value Number)))
    (record_created : Record → ℕ) (job_id principal_id page_size : ℕ) (db : Db) (job : Job) where
  -- A principal who owns the job and reads the pages 1 to k of its inventory or of its results, of
  -- the same size, gets every page, and every record, exactly as often as the tables hold it, in the
  -- order of the query, once k pages have room for all of them.
  pub pages-collect :
      (k : ℕ)
      → owned_job job_id principal_id db ≡ some job
      → length (job_pages job_id db) ≤ k * page_size
      → length (job_records payload_fields record_created job_id db) ≤ k * page_size
      → (collect (λ page. page_items (pages job_id principal_id page page_size db)) k
          ≡ map inventory_item (sort_by by_depth (job_pages job_id db)))
        × (collect
              (λ page.
                result_items
                  (results payload_fields record_created job_id principal_id page page_size db))
              k
            ≡ map (result_item payload_fields record_created (completed_run job_id db) db) (
                sort_by
                  (by_creation payload_fields record_created)
                  (job_records payload_fields record_created job_id db)))
  unfolding pages results get_job some_or ◌>>=◌ inventory results_response
  pages-collect k owner small few = (
    collect-all _ inventory_item page_size (sort_by by_depth (job_pages job_id db)) (λ n. rw owner)
        k (rw (length-sort_by by_depth (job_pages job_id db)) small),
    collect-all _ (result_item payload_fields record_created (completed_run job_id db) db) page_size
        (sort_by (by_creation payload_fields record_created)
          (job_records payload_fields record_created job_id db))
        (λ n. rw owner) k
        (rw
          (length-sort_by (by_creation payload_fields record_created)
            (job_records payload_fields record_created job_id db))
          few),
  )
