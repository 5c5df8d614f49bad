-- ===== src/Worker/Orphans.antt =====
-- worker.py: `run_export` and the object store.
use web_data_extraction_engi.Prelude.{
  ℕ, ◌≡◌, ◌⊎◌, Bool, true, false, not, List, [], ◌∷◌, ◌++◌, some, all, str_eq,
}
use web_data_extraction_engi.Store.{Db, Command}
use web_data_extraction_engi.Store.Tx.{ok}
use web_data_extraction_engi.Service.Export.{ExportOperation, StoredFile, complete_export}
use web_data_extraction_engi.Worker.{WorkerConfig}
use web_data_extraction_engi.Worker.Export.{World, Put, stored, put_broke, put_timed_out, Deletions}

-- the store draws a new key
abbrev pub IsNew : StoredFile → List StoredFile → Type 0
IsNew file files = all (λ f. not (str_eq f.storage_key file.storage_key)) files ≡ true

module _ (w : WorkerConfig) (command : Command) (finish : ℕ) (put : ℕ → Put)
    (deletions : Deletions) where
  -- why the store holds the file after the export: its export is completed with it; or the put raised
  -- or ran out of time and left it; or its deletion in an `except` clause raised
  abbrev pub Reason : ExportOperation → StoredFile → Db → Type 0
  Reason op file t =
      ((s : Db) × (complete_export op file finish s ≡ ok (true, t)))
      ⊎ ((size : ℕ) × ((put size ≡ put_broke (some file)) ⊎ (put size ≡ put_timed_out (some file))))
      ⊎ ((size : ℕ) × (put size ≡ stored file) × (deletions.clearing ≡ false))

  -- The store holds what it held, or exactly one more file, for one of these reasons.
  abbrev pub Accounted : ExportOperation → List StoredFile → World → Type 0
  Accounted op files after =
      (after.files ≡ files)
      ⊎ ((file : StoredFile) × (after.files ≡ files ++ file ∷ []) × Reason op file after.db)

  module _ (storing : Db → Db) (late : Bool) where
    abbrev DrawsNew : List StoredFile → Type 0
    DrawsNew files = (size : ℕ) (file : StoredFile) → put size ≡ stored file → IsNew file files
