-- ===== src/Pages/JobList.antt =====
-- frontend/features/jobs/components/jobs-client.tsx and the page of one job,
-- frontend/app/(dashboard)/dashboard/jobs/[id]/job-details-client.tsx.
pub mod Laws
use emailjachai.Common.{
  ℕ, String, ◌≡◌, refl, Bool, true, false, not, ◌||◌, Option, none, some, List, [], ◌∷◌,
  if◌then◌else◌,
}
use emailjachai.Common.Text.{nullish, over}
use emailjachai.Stores.Jobs.{Job, JobDetails, JobStore, set_jobs, set_current_job_details}
use emailjachai.Stores.Reply.{Reply, replied, rejected}

abbrev pub is_empty {ℓ} : {A : Type ℓ} → List A → Bool
is_empty [] = true
is_empty (x ∷ xs) = false

-- The commands of a row; each has its own busy mark.
pub data Command : Type 0 where
  delete retry pause resume : Command

pub record JobsPage : Type 0 where
  pub store : JobStore
  pub initial_jobs : List Job
  pub initial_total : ℕ
  pub is_loading : Bool
  pub is_deleting : Option String
  pub is_retrying : Option String
  pub is_pausing : Option String
  pub is_resuming : Option String
  pub confirm_delete : Option String
  pub offset : ℕ

-- The rows and the total that are shown: those of the store, or those the server rendered while the
-- store has none.
unfoldable pub shown_jobs : JobsPage → List Job
shown_jobs s = if is_empty s.store.jobs then s.initial_jobs else s.store.jobs

unfoldable pub shown_total : JobsPage → ℕ
shown_total s = if is_empty s.store.jobs then s.initial_total else s.store.total

unfoldable pub mount : JobsPage → JobsPage
unfolding set_jobs
mount s = record s { store = set_jobs s.initial_jobs s.initial_total s.store }

-- `fetchJobs` up to its request, which asks for twenty rows from the offset on.
unfoldable pub begin_fetch : Bool → JobsPage → JobsPage × ℕ
unfolding shown_jobs
begin_fetch silent s = (
  record s { is_loading = if not silent || is_empty (shown_jobs s) then true else s.is_loading },
  s.offset,
)

pub record JobsList : Type 0 where
  pub jobs : Option (List Job)
  pub total : Option ℕ

-- `fetchJobs` from its reply on; a success with no data throws and is caught.
unfoldable pub finish_fetch : Reply JobsList → JobsPage → JobsPage
unfolding set_jobs
finish_fetch (replied true (some d) m) s = record s {
  is_loading = false;
  store = set_jobs (nullish d.jobs []) (nullish d.total 0) s.store;
}
finish_fetch (replied true none m) s = record s { is_loading = false }
finish_fetch (replied false body m) s = record s { is_loading = false }
finish_fetch rejected s = record s { is_loading = false }

unfoldable pub mark : Command → Option String → JobsPage → JobsPage
mark delete v s = record s { is_deleting = v }
mark retry v s = record s { is_retrying = v }
mark pause v s = record s { is_pausing = v }
mark resume v s = record s { is_resuming = v }

-- A command up to its request, and from its reply on; the flag tells that the rows are asked for anew.
unfoldable pub begin_command : Command → String → JobsPage → JobsPage × String
unfolding mark
begin_command c job_id s = (mark c (some job_id) s, job_id)

abbrev pub close_dialog : Command → JobsPage → JobsPage
close_dialog delete s = record s { confirm_delete = none }
close_dialog retry s = s
close_dialog pause s = s
close_dialog resume s = s

unfoldable pub finish_command : {A : Type 0} → Command → Reply A → JobsPage → JobsPage × Bool
unfolding mark
finish_command c (replied true body m) s = (mark c none (close_dialog c s), true)
finish_command c (replied false body m) s = (mark c none s, false)
finish_command c rejected s = (mark c none s, false)

-- The page of one job: the job of the address, the store, and what the server rendered.
pub record DetailsPage : Type 0 where
  pub job_id : String
  pub store : JobStore
  pub initial_job : Option JobDetails
  pub is_loading : Bool

unfoldable pub shown_details : DetailsPage → Option JobDetails
shown_details s = over s.store.current_job_details s.initial_job

-- `fetchJobDetails` from its reply on.
unfoldable pub finish_details : Reply JobDetails → DetailsPage → DetailsPage
unfolding set_current_job_details
finish_details (replied true (some d) m) s = record s {
  is_loading = false;
  store = set_current_job_details d s.store;
}
finish_details (replied true none m) s = record s { is_loading = false }
finish_details (replied false body m) s = record s { is_loading = false }
finish_details rejected s = record s { is_loading = false }

-- The id that a command of the page sends.
unfoldable pub details_command : DetailsPage → String
details_command s = s.job_id

-- The page of one job shows the details that the store holds, also those of another job that was open
-- before; until a reply brings details it shows them while its commands go to the job of the address,
-- and where the job of the address cannot be loaded it goes on so.
pub details_of_other_job :
    (d : JobDetails) (b : Option JobDetails) (m : String) (s : DetailsPage)
    → s.store.current_job_details ≡ some d
    → (shown_details s ≡ some d)
      × (shown_details (finish_details (replied false b m) s) ≡ some d)
      × (shown_details (finish_details rejected s) ≡ some d)
      × (details_command (finish_details (replied false b m) s) ≡ s.job_id)
unfolding shown_details finish_details details_command
details_of_other_job d b m s h = (rw h refl, rw h refl, rw h refl, refl)
