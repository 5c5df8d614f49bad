-- ===== src/Behaviour/Completion.antt =====
-- The last export completes its job.
use web_data_extraction_engi.Prelude.{
  List, all, All, ℕ, ◌≡◌, ◌⊎◌, refl, ap, ◌++◌, ◌+◌, ==_iff, any, str_eq, str_in, Bool, true, false,
  not, ◌||◌, [], ◌∷◌, Option, none, some, if◌then◌else◌, Bool-cases, Option-cases, inl, inr, arith,
}
use web_data_extraction_engi.Domain.{exporting, completed, status_eq}
use web_data_extraction_engi.Domain.Graph.{status_eq-eq}
use web_data_extraction_engi.Store.{Db, Job, ExportJob, ExportStatus, GeneratedFile, ProgressEvent}
use web_data_extraction_engi.Store.Tx.{ok, ◌>>=◌, pure}
use web_data_extraction_engi.Store.Jobs.{
  find_job, update_job, modify_job, keep_id, map_row, find_job-update_job,
}
use web_data_extraction_engi.Store.Events.{append_event, events_of, max_sequence}
use web_data_extraction_engi.Store.Tables.{add_file, modify_export, update_export}
use web_data_extraction_engi.Service.Validation.{writer_for, writer_formats}
use mathlib.Core.Option.{some-injective}
use web_data_extraction_engi.Service.Columns.{enter, complete_progress, release_lease}
use web_data_extraction_engi.Service.Export.{
  ExportOperation, StoredFile, complete_export, all_completed, exports_of, complete_job,
  is_cancelled, export_row, export_is, finish_export,
}
use web_data_extraction_engi.Behaviour.Inversion.{bind-ok, ok_unique, find_job-updated}
use web_data_extraction_engi.Behaviour.Transitions.{transition-ok, find_job-changed}

full :
    (o : Option Job) (job : Job)
    → map_row complete_progress o ≡ some job
    → job.progress_percent ≡ 100
unfolding complete_progress
full none job h = cc h
full (some j) job h =
    let e = some-injective (keep_id complete_progress j) job h in
    cc (ap (λ x. x.progress_percent) e)

-- the completion of a job
complete_job-ok :
    (id correlation_id now : ℕ) (s t : Db) (a : Unit {0})
    → complete_job id correlation_id now s ≡ ok (a, t)
    → (t.exports ≡ s.exports)
      × ((k : Job) × ((find_job id t.jobs ≡ some k)
            × (k.status ≡ completed)
            × (k.progress_percent ≡ 100)))
unfolding complete_job modify_job ◌>>=◌ enter
complete_job-ok id correlation_id now s t a h =
    let u : Db = record s { jobs = update_job id complete_progress s.jobs } in
    let (job, (f, p, e)) = transition-ok id exporting completed correlation_id now u a t h in
    let g = find_job-changed id exporting completed correlation_id now u job f in
    let k = keep_id (enter completed now) job in
    let g' : find_job id t.jobs ≡ some k = rw e g in
    (
      rw e,
      (
        k,
        (
          g',
          refl,
          full (find_job id s.jobs) job (rw (find_job-update_job, (==_iff id id).1 refl) at f),
        ),
      ),
    )

abbrev pub IsDone : ExportJob → Type 0
IsDone e = export_is e.status ExportStatus.completed ≡ true

all-All :
    (es : List ExportJob)
    → all (λ e. export_is e.status ExportStatus.completed) es ≡ true
    → All IsDone es
all-All [] h = tt
all-All (e ∷ es) h = elim (Bool-cases (export_is e.status ExportStatus.completed)) [
  | inl y ↦ (y, all-All es (rw y at h))
  | inr n ↦ cc (rw n at h)
]

All-all :
    (es : List ExportJob)
    → All IsDone es
    → all (λ e. export_is e.status ExportStatus.completed) es ≡ true
All-all [] h = refl
All-all (e ∷ es) (y, h) = rw (y, All-all es h)

all_completed-All : (es : List ExportJob) → all_completed es ≡ true → All IsDone es
all_completed-All [] h = tt
all_completed-All (e ∷ es) h = all-All (e ∷ es) h

unfinished : (es : List ExportJob) → all_completed es ≡ false → All IsDone es → es ≡ []
unfinished [] h d = refl
unfinished (e ∷ es) h d = cc (All-all (e ∷ es) d, h)

-- what holds of the job after the last step of `complete_export`
abbrev pub Outcome : ℕ → Db → Type 0
Outcome id t =
    (k : Job) × ((find_job id t.jobs ≡ some k)
      × ((All IsDone (exports_of id t) × (k.status ≡ completed) × (k.progress_percent ≡ 100))
          ⊎ ((All IsDone (exports_of id t) → exports_of id t ≡ []) × (k.status ≡ exporting))))

closed :
    (id correlation_id now : ℕ) (u t : Db) (k : Job)
    → find_job id u.jobs ≡ some k
    → k.status ≡ exporting
    → ((if all_completed (exports_of id u) then complete_job id correlation_id now else pure tt)
          >>= λ _. pure true)
        u
      ≡ ok (true, t)
    → Outcome id t
unfolding pure
closed id correlation_id now u t k f p h =
    let (a, (v, (e, q))) = bind-ok _ _ u true t h in
    let same : v ≡ t = (ok_unique (ok (true, v)) true true v t refl q).1 in
    ended (Bool-cases (all_completed (exports_of id u))) a (rw same at e)
  where
    ended :
        ((all_completed (exports_of id u) ≡ true) ⊎ (all_completed (exports_of id u) ≡ false))
        → (a : Unit {0})
        → (if all_completed (exports_of id u) then complete_job id correlation_id now else pure tt)
            u
          ≡ ok (a, t)
        → Outcome id t
    ended (inl y) a e =
        let (x, (k', (f', c, n))) = complete_job-ok id correlation_id now u t a (rw y at e) in
        (k', (f', inl (all_completed-All (exports_of id t) (rw (x, y)), c, n)))
    ended (inr n) a e =
        let stay : u ≡ t = (ok_unique (ok (a, u)) a a u t refl (rw n at e)).1 in
        (k, (rw⁻¹ stay f, inr (unfinished (exports_of id t) (rw⁻¹ stay n), p)))

module _ (op : ExportOperation) (file : StoredFile) (now : ℕ) (s : Db) where
  -- the tables after the export is stored
  stored : ExportJob → Db
  stored export =
      let row : GeneratedFile = record {
        export_job_id = export.id;
        storage_key = file.storage_key;
        media_type = file.media_type;
        byte_size = file.byte_size;
        checksum = file.checksum;
        expires_at = file.expires_at;
      } in
      let event : ProgressEvent = record {
        job_id = op.job_id;
        sequence_no = max_sequence (events_of op.job_id s.events) + 1;
        event_type = "export_completed";
        stage = exporting;
        percent = none;
        correlation_id = op.correlation_id;
      } in
      record s {
        files = s.files ++ row ∷ [];
        exports = update_export export.id (finish_export now) s.exports;
        jobs = update_job op.job_id release_lease s.jobs;
        events = s.events ++ event ∷ [];
      }

  stored-Outcome :
      (job : Job) (export : ExportJob) (t : Db)
      → find_job op.job_id s.jobs ≡ some job
      → export_row op.export_job_id s ≡ some export
      → is_cancelled job ≡ false
      → status_eq job.status exporting ≡ true
      → export_is export.status ExportStatus.completed ≡ false
      → complete_export op file now s ≡ ok (true, t)
      → Outcome op.job_id t
  unfolding complete_export writer_for add_file modify_export modify_job append_event stored
      release_lease ◌>>=◌
  stored-Outcome job export t f x c p d h =
      elim (Bool-cases (str_in export.format writer_formats)) [
        | inr w ↦ cc (rw (f, x, c, p, d, w) at h)
        | inl w ↦ elim (Bool-cases (any (λ r. str_eq r.storage_key file.storage_key) s.files)) [
          | inl k ↦ cc (rw (f, x, c, p, d, w, k) at h)
          | inr k ↦
              closed op.job_id op.correlation_id now (stored export) t (keep_id release_lease job)
                (find_job-updated op.job_id release_lease s.jobs job f)
                (status_eq-eq job.status exporting p) (rw (f, x, c, p, d, w, k) at h)
        ]
      ]

  -- the guards of `complete_export` answer false
  guards :
      (t : Db)
      → complete_export op file now s ≡ ok (true, t)
      → (job : Job) (export : ExportJob) → find_job op.job_id s.jobs ≡ some job
      → export_row op.export_job_id s ≡ some export
      → (is_cancelled job
          || (not (status_eq job.status exporting)
              || export_is export.status ExportStatus.completed))
        ≡ false
  unfolding complete_export ◌>>=◌
  guards t h job export f x = elim (Bool-cases (is_cancelled job)) [
    | inl c ↦ cc (rw (f, x, c) at h)
    | inr c ↦
        elim (Bool-cases (
          not (status_eq job.status exporting) || export_is export.status ExportStatus.completed)) [
            | inl p ↦ cc (rw (f, x, c, p) at h)
            | inr p ↦ rw (c, p)
          ]
  ]

  rows :
      (t : Db)
      → complete_export op file now s ≡ ok (true, t)
      → (job : Job) × ((export : ExportJob) × ((find_job op.job_id s.jobs ≡ some job)
            × (export_row op.export_job_id s ≡ some export)))
  unfolding complete_export ◌>>=◌
  rows t h = elim (Option-cases (find_job op.job_id s.jobs)) [
    | inl f ↦ cc (rw f at h)
    | inr (job, f) ↦ elim (Option-cases (export_row op.export_job_id s)) [
      | inl x ↦ cc (rw (f, x) at h)
      | inr (export, x) ↦ (job, (export, (f, x)))
    ]
  ]

  -- If `complete_export` answers true, then the job was exporting, and either it is completed with
  -- full progress and all its exports are, on the tables that the call leaves, or it is still exporting
  -- and its exports, if it has any, are not all completed.
  pub complete_export-completes :
      (t : Db)
      → complete_export op file now s ≡ ok (true, t)
      → ((job : Job) × ((find_job op.job_id s.jobs ≡ some job) × (job.status ≡ exporting)))
        × Outcome op.job_id t
  complete_export-completes t h =
      let (job, (export, (f, x))) = rows t h in
      let (c, p, d) =
        split_or (is_cancelled job) (status_eq job.status exporting) _
          (guards t h job export f x) in
      ((job, (f, status_eq-eq job.status exporting p)), stored-Outcome job export t f x c p d h)
    where
      split_or :
          (a b c : Bool) → (a || (not b || c)) ≡ false → (a ≡ false) × (b ≡ true) × (c ≡ false)
      split_or a b c e = ground arith
