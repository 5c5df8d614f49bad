-- ===== src/Tests/Recoveries.antt =====
-- The theorems about recovered jobs at concrete inputs.
use web_data_extraction_engi.Prelude.{ℕ, ◌≡◌, ◌++◌, inl, refl, [], ◌∷◌, some, String}
use web_data_extraction_engi.Domain.{planning, extracting}
use web_data_extraction_engi.Store.{Db, Command, WorkOutbox, run_planning}
use web_data_extraction_engi.Store.Tx.{ok, err, invalid_transition, integrity_error}
use web_data_extraction_engi.Store.Jobs.{find_job}
use web_data_extraction_engi.Service.Planning.{claim_planning}
use web_data_extraction_engi.Service.Recovery.{recover_job}
use web_data_extraction_engi.Behaviour.Recovered.{recover_job-collision, recover_job-stuck}
use web_data_extraction_engi.Demo.{job_in, store_of, command}
use web_data_extraction_engi.Demo.{no_jitter, in_planning}

-- the row that the creation of the job leaves in the outbox
abbrev with_work : Db
with_work = record in_planning {
  outbox =
      record {
        command_type = run_planning;
        command = command;
        attempt = 1;
        available_at = 100;
        published_at = some 150;
        created_at = 100;
      }
      ∷ [];
}

recover_job-collision_example : recover_job no_jitter 300 5 with_work ≡ err integrity_error
unfolding find_job
recover_job-collision_example =
    recover_job-collision no_jitter 300 5 with_work (job_in planning 0 (some 250)) refl refl refl
      refl refl refl refl

abbrev in_extraction : Db
in_extraction = store_of (job_in extracting 0 (some 250))

recover_job-stuck_example :
    (t : Db) × ((recover_job no_jitter 300 5 in_extraction ≡ ok (1, t))
      × ((w : WorkOutbox) × ((t.outbox ≡ [] ++ w ∷ []) × (w.command_type ≡ run_planning)))
      × ((c : Command) (worker_id : String) (lease_ms later : ℕ)
          → c.job_id ≡ 5
          → claim_planning c worker_id lease_ms later t ≡ err invalid_transition))
unfolding find_job
recover_job-stuck_example =
    recover_job-stuck no_jitter 300 5 in_extraction (job_in extracting 0 (some 250)) refl refl refl
      (inl refl) refl refl
