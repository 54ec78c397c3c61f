-- ===== src/Stores/Jobs/Refinement.antt =====
-- The job table as a map from ids to jobs: what frontend/stores/jobs-store.ts promises, whatever the
-- order of the rows.
use mathlib.Core.Path.{fun_ext}
use Prim.Native.Nat.{max}
use emailjachai.Common.{
  ℕ, ◌+◌, ◌≤◌, String, ◌≡◌, refl, ap, ◌∙◌, Option, none, some, List, [], ◌∷◌, not, arith, str_eq,
  if◌then◌else◌, length, length-filter-le, length-take, find, Option-cases, inl, inr,
}
use emailjachai.Stores.Jobs.{
  Job, JobStore, Action, set, details, update, remove, merge, init, set_jobs,
  set_current_job_details, update_job, remove_job, step, run,
}
use emailjachai.Stores.Jobs.Laws.{
  has_id, row, row-update_job, row-update_job_new, row-remove_job, update_job_found, update_job_new,
  length-map_patch,
}

-- A table with no order and no bound.
abbrev pub JobMap : Type 0
JobMap = String → Option Job

-- What an update leaves of a job: the update itself where the job is new.
abbrev pub overlaid : Job → Option Job → Job
overlaid patch none = patch
overlaid patch (some j) = merge j patch

unfoldable pub map_step : Action → JobMap → JobMap
map_step (set jobs total) m = λ k. find (has_id k) jobs
map_step (details d) m = m
map_step (update patch) m =
    λ k. if str_eq k patch.job_id then some (overlaid patch (m patch.job_id)) else m k
map_step (remove job_id) m = λ k. if str_eq k job_id then none else m k

unfoldable pub map_run : List Action → JobMap → JobMap
unfolding map_step
map_run [] m = m
map_run (a ∷ rest) m = map_run rest (map_step a m)

-- The map that a table stands for.
abbrev pub view : JobStore → JobMap
view s = λ k. row k s

-- The most rows that the actions can add.
abbrev pub added : List Action → ℕ
added [] = 0
added (set jobs total ∷ rest) = length jobs + added rest
added (details d ∷ rest) = added rest
added (update patch ∷ rest) = 1 + added rest
added (remove job_id ∷ rest) = added rest

view-update_job :
    (patch : Job) (s : JobStore)
    → length s.jobs + 1 ≤ 20
    → view (update_job patch s) ≡ map_step (update patch) (view s)
unfolding map_step
view-update_job patch s few = fun_ext (λ k. elim (Option-cases (row patch.job_id s)) [
  | inl e ↦ (row-update_job_new patch k s e (omega arith)).0 ∙ rw e refl
  | inr (j, e) ↦ row-update_job patch j k s e ∙ rw e refl
])

view-remove_job :
    (job_id : String) (s : JobStore)
    → view (remove_job job_id s) ≡ map_step (remove job_id) (view s)
unfolding map_step
view-remove_job job_id s = fun_ext (λ k. (row-remove_job job_id k s).0)

length-update_job :
    (patch : Job) (s : JobStore) → length (update_job patch s).jobs ≤ length s.jobs + 1
length-update_job patch s = elim (Option-cases (row patch.job_id s)) [
  | inl e ↦ omega (
    arith,
    ap length (update_job_new patch s e),
    length-take {0} (max (length s.jobs) 20) (patch ∷ s.jobs),
  )
  | inr (j, e) ↦
      omega (arith, ap length (update_job_found patch s j e), length-map_patch patch s.jobs)
]

view-run :
    (xs : List Action) (s : JobStore)
    → length s.jobs + added xs ≤ 20
    → view (run xs s) ≡ map_run xs (view s)
unfolding run map_run map_step set_jobs set_current_job_details step remove_job
view-run [] s h = refl
view-run (set jobs total ∷ xs) s h =
    view-run xs (set_jobs jobs total s) (omega arith) ∙ ap (map_run xs) refl
view-run (details d ∷ xs) s h = view-run xs (set_current_job_details d s) (omega arith) ∙ refl
view-run (update patch ∷ xs) s h =
    view-run xs (update_job patch s) (omega (arith, length-update_job patch s))
    ∙ ap (map_run xs) (view-update_job patch s (omega arith))
view-run (remove job_id ∷ xs) s h =
    view-run xs (remove_job job_id s)
      (omega (arith, length-filter-le (λ j. not (str_eq j.job_id job_id)) s.jobs))
    ∙ ap (map_run xs) (view-remove_job job_id s)

-- The table refines a map from ids to jobs: after any actions on the empty store that add at most
-- twenty rows, the row of every id is what the same actions leave in a map with no order and no bound,
-- in which an update stores the new job or overlays the old one, and a removal forgets its id.
pub view-run-init : (xs : List Action) → added xs ≤ 20 → view (run xs init) ≡ map_run xs (λ k. none)
unfolding init
view-run-init xs h = view-run xs init (omega arith)
