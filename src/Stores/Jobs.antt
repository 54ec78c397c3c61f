-- ===== src/Stores/Jobs.antt =====
-- frontend/stores/jobs-store.ts: the job table and the open job's details.
pub mod Laws
pub mod Refinement
mod Tests
use emailjachai.Common.{
  ℕ, ◌+◌, ◌-◌, String, Bool, not, Option, none, some, List, [], ◌∷◌, map, str_eq, if◌then◌else◌,
  length, take, find, filter,
}
use emailjachai.Common.Text.{over}
use Prim.Native.Nat.{max}

-- `Job` of frontend/features/jobs/components/jobs-client.tsx. Updates are partial jobs, and a job
-- that is first seen in an update is stored as it came, so every field but the id may be absent
-- (`none`); a file name that is present may be null.
pub record Job : Type 0 where
  pub job_id : String
  pub filename : Option (Option String)
  pub status : Option String
  pub total_emails : Option ℕ
  pub processed_count : Option ℕ
  pub created_at : Option String

-- `{ ...j, ...jobData }`.
unfoldable pub merge : Job → Job → Job
merge j patch = record {
  job_id = patch.job_id;
  filename = over patch.filename j.filename;
  status = over patch.status j.status;
  total_emails = over patch.total_emails j.total_emails;
  processed_count = over patch.processed_count j.processed_count;
  created_at = over patch.created_at j.created_at;
}

pub record JobDetails : Type 0 where
  pub job : Job
  pub valid : Option ℕ
  pub deliverable : Option ℕ
  pub invalid : Option ℕ
  pub undeliverable : Option ℕ
  pub unknown : Option ℕ
  pub risky : Option ℕ
  pub catch_all : Option ℕ
  pub disposable : Option ℕ

pub record JobStore : Type 0 where
  pub jobs : List Job
  pub total : ℕ
  pub current_job_details : Option JobDetails

unfoldable pub init : JobStore
init = record { jobs = []; total = 0; current_job_details = none }

unfoldable pub set_jobs : List Job → ℕ → JobStore → JobStore
set_jobs jobs total s = record s { jobs = jobs; total = total }

unfoldable pub set_current_job_details : JobDetails → JobStore → JobStore
set_current_job_details d s = record s { current_job_details = some d }

-- The job in the list under the patch's id, patched.
abbrev pub patch_job : Job → Job → Job
patch_job patch j = if str_eq j.job_id patch.job_id then merge j patch else j

abbrev pub patch_details : Job → Option JobDetails → Option JobDetails
patch_details patch none = none
patch_details patch (some d) =
    if str_eq d.job.job_id patch.job_id then some (record d { job = merge d.job patch }) else some d

unfoldable pub update_job : Job → JobStore → JobStore
unfolding merge
update_job patch s = elim (find (λ j. str_eq j.job_id patch.job_id) s.jobs) [
  | some existing ↦ record {
    jobs = map (patch_job patch) s.jobs;
    total = s.total;
    current_job_details = patch_details patch s.current_job_details;
  }
  | none ↦ record {
    jobs = take (max (length s.jobs) 20) (patch ∷ s.jobs);
    total = s.total + 1;
    current_job_details = patch_details patch s.current_job_details;
  }
]

abbrev pub close_details : String → Option JobDetails → Option JobDetails
close_details job_id none = none
close_details job_id (some d) = if str_eq d.job.job_id job_id then none else some d

unfoldable pub remove_job : String → JobStore → JobStore
remove_job job_id s = record {
  jobs = filter (λ j. not (str_eq j.job_id job_id)) s.jobs;
  total = s.total - 1;
  current_job_details = close_details job_id s.current_job_details;
}

-- A call of one of the store's actions.
pub data Action : Type 0 where
  set : List Job → ℕ → Action
  details : JobDetails → Action
  update : Job → Action
  remove : String → Action

unfoldable pub step : Action → JobStore → JobStore
unfolding set_jobs set_current_job_details update_job remove_job
step (set jobs total) s = set_jobs jobs total s
step (details d) s = set_current_job_details d s
step (update patch) s = update_job patch s
step (remove job_id) s = remove_job job_id s

unfoldable pub run : List Action → JobStore → JobStore
unfolding step
run [] s = s
run (a ∷ rest) s = run rest (step a s)
