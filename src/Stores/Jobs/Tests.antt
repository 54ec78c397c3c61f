-- ===== src/Stores/Jobs/Tests.antt =====
-- The job table's theorems at a table of one job.
use emailjachai.Common.{ℕ, String, ◌≡◌, none, some, List, [], ◌∷◌, arith}
use emailjachai.Common.Keyed.{text_key}
use emailjachai.Stores.Jobs.{Job, JobStore, Action, set, update, remove, init, run}
use emailjachai.Stores.Jobs.Refinement.{view, map_run, view-run-init}

abbrev job : String → ℕ → Job
job job_id count = record {
  job_id = job_id;
  filename = none;
  status = some "processing";
  total_emails = none;
  processed_count = some count;
  created_at = none;
}

abbrev one_job : JobStore
one_job = record { jobs = job "a" 3 ∷ []; total = 1; current_job_details = none }

abbrev life : List Action
life = set (job "a" 3 ∷ []) 1 ∷ update (job "a" 4) ∷ update (job "b" 1) ∷ remove "a" ∷ []

view-run-init_example : view (run life init) ≡ map_run life (λ k. none)
view-run-init_example = view-run-init life (omega arith)
