-- ===== src/Store/Jobs.antt =====
-- The table of jobs: reading a row and writing it back.
use web_data_extraction_engi.Prelude.{
  ℕ, List, [], ◌∷◌, Option, none, some, ◌≡◌, refl, arith, ◌==◌, if◌then◌else◌,
}
use web_data_extraction_engi.Store.{Job}
use web_data_extraction_engi.Store.Tx.{Tx, ok}

-- `select(ExtractionJob).where(ExtractionJob.id == id)`
unfoldable pub find_job : ℕ → List Job → Option Job
find_job id [] = none
find_job id (j ∷ js) = if j.id == id then some j else find_job id js

abbrev pub keep_id : (Job → Job) → Job → Job
keep_id f j = record (f j) { id = j.id }

-- assignments to the columns of the row with that primary key, which itself is never assigned
unfoldable pub update_job : ℕ → (Job → Job) → List Job → List Job
update_job id f [] = []
update_job id f (j ∷ js) = if j.id == id then keep_id f j ∷ js else j ∷ update_job id f js

abbrev pub map_row : (Job → Job) → Option Job → Option Job
map_row f none = none
map_row f (some j) = some (keep_id f j)

pub find_job-update_job :
    (i k : ℕ) (f : Job → Job) (js : List Job)
    → find_job i (update_job k f js) ≡ (if k == i then map_row f (find_job i js) else find_job i js)
unfolding find_job update_job
find_job-update_job i k f [] = ground arith
find_job-update_job i k f (j ∷ js) = ground (arith, find_job-update_job i k f js)

pub update_job-update_job :
    (k : ℕ) (f g : Job → Job) (js : List Job)
    → update_job k g (update_job k f js) ≡ update_job k (λ j. g (keep_id f j)) js
unfolding update_job
update_job-update_job k f g [] = refl
update_job-update_job k f g (j ∷ js) = ground (arith, update_job-update_job k f g js)

unfoldable pub modify_job : ℕ → (Job → Job) → Tx (Unit {0})
modify_job id f db = ok (tt, record db { jobs = update_job id f db.jobs })
