-- ===== src/Stores/Dashboard/Laws.antt =====
-- The short list of recent jobs, and loads of the figures that overlap.
use emailjachai.Common.{
  ◌≤◌, String, ◌≡◌, refl, sym, subst, false, not, Option, none, some, List, ◌∷◌, arith, str_eq,
  length, length-take, take, find, filter, Bool-cases, Option-cases, inl, inr,
}
use emailjachai.Common.Keyed.{
  text_key, Fresh, IsDistinct, Fresh-remove, IsDistinct-take, IsDistinct-filter,
}
use emailjachai.Stores.Dashboard.{
  RecentDashboardJob, DashboardState, WsJob, overlay, upsert_recent_job, to_recent_job,
  handle_job_update,
}

abbrev pub job_key : RecentDashboardJob → String
job_key j = j.job_id

pub record IsValid (s : DashboardState) : Type 0 where
  pub few : length s.recent_jobs ≤ 4
  pub distinct : IsDistinct job_key s.recent_jobs

overlay-job_id :
    (previous : Option RecentDashboardJob) (job : RecentDashboardJob)
    → (overlay previous job).job_id ≡ job.job_id
unfolding overlay
overlay-job_id none job = refl
overlay-job_id (some p) job = refl

upsert_recent_job-IsValid :
    (job : RecentDashboardJob) (s : DashboardState) → IsValid s → IsValid (upsert_recent_job job s)
unfolding upsert_recent_job
upsert_recent_job-IsValid job s v = elim (Bool-cases (str_eq job.job_id "")) [
  | inl e ↦ rw (e, upsert_recent_job) v
  | inr e ↦
      rw (e, upsert_recent_job)
        (record {
          few = omega (arith, length-take {0} 4 (head ∷ rest));
          distinct = IsDistinct-take job_key 4 (head ∷ rest) (
            subst (λ k. Fresh job_key k rest) (sym (overlay-job_id _ job))
                (Fresh-remove job_key job.job_id s.recent_jobs),
            IsDistinct-filter job_key _ s.recent_jobs v.distinct,
          );
        })
]
  where
    rest : List RecentDashboardJob
    rest = filter (λ item. not (str_eq item.job_id job.job_id)) s.recent_jobs

    head : RecentDashboardJob
    head = overlay (find (λ item. str_eq item.job_id job.job_id) s.recent_jobs) job

-- Whatever messages arrive, the list keeps at most four jobs, each once, if that held at first.
pub handle_job_update-IsValid :
    (d : WsJob) (s : DashboardState) → IsValid s → IsValid (handle_job_update d s)
unfolding handle_job_update
handle_job_update-IsValid d s v = elim (Option-cases (to_recent_job d)) [
  | inl e ↦ rw (e, handle_job_update) v
  | inr (job, e) ↦ rw (e, handle_job_update) (upsert_recent_job-IsValid job s v)
]

-- A row made from a message has every key.
to_recent_job_full :
    (d : WsJob) (job : RecentDashboardJob) (previous : Option RecentDashboardJob)
    → to_recent_job d ≡ some job
    → overlay previous job ≡ job
unfolding to_recent_job overlay
to_recent_job_full d job none h = refl
to_recent_job_full d job (some p) h = ground arith

to_recent_job-ne-empty :
    (d : WsJob) (job : RecentDashboardJob)
    → to_recent_job d ≡ some job
    → str_eq job.job_id "" ≡ false
unfolding to_recent_job
to_recent_job-ne-empty d job h = ground arith

-- A message that names a job replaces the job's row: the row at the front is the one made from the
-- message alone, whatever the list knew of that job before. A file name or a date that the message
-- leaves out is lost.
pub handle_job_update_forgets :
    (d : WsJob) (job : RecentDashboardJob) (s : DashboardState)
    → to_recent_job d ≡ some job
    → (handle_job_update d s).recent_jobs
      ≡ job ∷ take 3 (filter (λ item. not (str_eq item.job_id job.job_id)) s.recent_jobs)
unfolding handle_job_update upsert_recent_job
handle_job_update_forgets d job s h =
    rw
      (
        h,
        handle_job_update,
        to_recent_job-ne-empty d job h,
        upsert_recent_job,
        to_recent_job_full d job (find (λ item. str_eq item.job_id job.job_id) s.recent_jobs) h,
      )
      refl
