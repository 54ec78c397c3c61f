-- ===== src/Stores/Jobs/Laws.antt =====
-- The job table holds each id once, and an update is seen by the next lookup.
use emailjachai.Common.{
  ◌+◌, ◌-◌, ◌≤◌, ◌<◌, take_all, String, ◌≡◌, ◌≢◌, refl, sym, subst, ap, ◌∙◌, Bool, true, false, not,
  Option, none, some, List, [], ◌∷◌, map, arith, str_eq, eq_iff, length, length-take, take, find,
  filter, All, Bool-cases, Option-cases, inl, inr, if◌then◌else◌,
}
use emailjachai.Common.Keyed.{
  text_key, Fresh, IsDistinct, Fresh-remove, IsDistinct-take, IsDistinct-filter, IsDistinct-map,
  find_of_Fresh, find-remove_ne,
}
use emailjachai.Stores.Jobs.{
  Job, JobDetails, JobStore, Action, set, details, update, remove, merge, patch_job, init, set_jobs,
  set_current_job_details, close_details, update_job, remove_job, step, run,
}
use Prim.Native.Nat.{max, suc}

abbrev pub job_key : Job → String
job_key j = j.job_id

abbrev pub has_id : String → Job → Bool
has_id job_id j = str_eq j.job_id job_id

-- The table's row for an id.
abbrev pub row : String → JobStore → Option Job
row job_id s = find (has_id job_id) s.jobs

patch_job-job_id : (patch j : Job) → job_key (patch_job patch j) ≡ job_key j
unfolding merge
patch_job-job_id patch j = ground (arith, eq_iff j.job_id patch.job_id)

Fresh-of_find : (k : String) (xs : List Job) → find (has_id k) xs ≡ none → Fresh job_key k xs
Fresh-of_find k [] h = tt
Fresh-of_find k (x ∷ xs) h = ground (arith, Fresh-of_find k xs)

pub update_job_found :
    (patch : Job) (s : JobStore) (j : Job)
    → row patch.job_id s ≡ some j
    → (update_job patch s).jobs ≡ map (patch_job patch) s.jobs
unfolding update_job
update_job_found patch s j h = rw (h, update_job) refl

pub update_job_new :
    (patch : Job) (s : JobStore)
    → row patch.job_id s ≡ none
    → (update_job patch s).jobs ≡ take (max (length s.jobs) 20) (patch ∷ s.jobs)
unfolding update_job
update_job_new patch s h = rw (h, update_job) refl

pub update_job-IsDistinct :
    (patch : Job) (s : JobStore)
    → IsDistinct job_key s.jobs
    → IsDistinct job_key (update_job patch s).jobs
update_job-IsDistinct patch s d = elim (Option-cases (row patch.job_id s)) [
  | inl e ↦ subst (IsDistinct job_key) (sym (update_job_new patch s e)) (
      IsDistinct-take job_key (max (length s.jobs) 20) (patch ∷ s.jobs)
        (Fresh-of_find patch.job_id s.jobs e, d))
  | inr (j, e) ↦
      subst (IsDistinct job_key) (sym (update_job_found patch s j e))
        (IsDistinct-map job_key (patch_job patch) (patch_job-job_id patch) s.jobs d)
]

-- A table that replaces the rows lists each id once.
abbrev pub IsDistinctTable : Action → Type 0
IsDistinctTable (set jobs total) = IsDistinct job_key jobs
IsDistinctTable (details d) = Unit
IsDistinctTable (update patch) = Unit
IsDistinctTable (remove job_id) = Unit

step-IsDistinct :
    (a : Action) (s : JobStore)
    → IsDistinctTable a
    → IsDistinct job_key s.jobs
    → IsDistinct job_key (step a s).jobs
unfolding step set_jobs set_current_job_details remove_job
step-IsDistinct (set jobs total) s t d = t
step-IsDistinct (details x) s t d = d
step-IsDistinct (update patch) s t d = update_job-IsDistinct patch s d
step-IsDistinct (remove job_id) s t d = IsDistinct-filter job_key _ s.jobs d

run_from-IsDistinct :
    (xs : List Action) (s : JobStore)
    → All IsDistinctTable xs
    → IsDistinct job_key s.jobs
    → IsDistinct job_key (run xs s).jobs
unfolding run
run_from-IsDistinct [] s t d = d
run_from-IsDistinct (a ∷ xs) s (h, t) d =
    run_from-IsDistinct xs (step a s) t (step-IsDistinct a s h d)

-- After any sequence of actions on the empty store, in which every table that is set lists each id
-- once, the table lists each id once: updates over the socket never duplicate a row.
pub run-IsDistinct :
    (xs : List Action) → All IsDistinctTable xs → IsDistinct job_key (run xs init).jobs
unfolding init
run-IsDistinct xs t = run_from-IsDistinct xs init t tt

has_id-merge : (patch j : Job) → has_id patch.job_id (merge j patch) ≡ true
unfolding merge
has_id-merge patch j = (eq_iff patch.job_id patch.job_id).1 refl

find-map_patch :
    (patch j : Job) (xs : List Job)
    → find (has_id patch.job_id) xs ≡ some j
    → find (has_id patch.job_id) (map (patch_job patch) xs) ≡ some (merge j patch)
find-map_patch patch j [] h = cc
find-map_patch patch j (x ∷ xs) h = ground (arith, has_id-merge patch x, find-map_patch patch j xs)

find-map_patch_ne :
    (patch : Job) (k : String) (xs : List Job)
    → k ≢ patch.job_id
    → find (has_id k) (map (patch_job patch) xs) ≡ find (has_id k) xs
unfolding merge
find-map_patch_ne patch k [] h = refl
find-map_patch_ne patch k (x ∷ xs) h = ground (
  arith,
  find-map_patch_ne patch k xs h,
  eq_iff x.job_id patch.job_id,
  eq_iff patch.job_id k,
  eq_iff x.job_id k,
)

ne_of_str_eq : (s t : String) → str_eq s t ≡ false → s ≢ t
ne_of_str_eq s t h e = ground (arith, eq_iff s t)

total_new :
    (patch : Job) (s : JobStore)
    → row patch.job_id s ≡ none
    → (update_job patch s).total ≡ s.total + 1
unfolding update_job
total_new patch s h = rw (h, update_job) refl

-- A row after the update of a listed job: the job's own row is overlaid, field by field, with what the
-- update carries, and every other row stays as it was.
pub row-update_job :
    (patch j : Job) (k : String) (s : JobStore)
    → row patch.job_id s ≡ some j
    → row k (update_job patch s) ≡ (if str_eq k patch.job_id then some (merge j patch) else row k s)
row-update_job patch j k s e = elim (Bool-cases (str_eq k patch.job_id)) [
  | inl same ↦
      ap (find (has_id k)) (update_job_found patch s j e)
      ∙ rw same (
          subst (λ i. find (has_id i) (map (patch_job patch) s.jobs) ≡ some (merge j patch))
            (sym ((eq_iff k patch.job_id).0 same)) (find-map_patch patch j s.jobs e))
  | inr other ↦
      ap (find (has_id k)) (update_job_found patch s j e)
      ∙ rw other (find-map_patch_ne patch k s.jobs (ne_of_str_eq k patch.job_id other))
]

-- A row after the update of a job that is not listed, while the table has fewer than twenty rows: the
-- update is the job's row, every other row stays as it was, and the total counts one more.
pub row-update_job_new :
    (patch : Job) (k : String) (s : JobStore)
    → row patch.job_id s ≡ none
    → length s.jobs < 20
    → (row k (update_job patch s) ≡ (if str_eq k patch.job_id then some patch else row k s))
      × ((update_job patch s).total ≡ s.total + 1)
row-update_job_new patch k s e few = (
  ap (find (has_id k)) (update_job_new patch s e)
      ∙ ap (find (has_id k)) (take_all (max (length s.jobs) 20) (patch ∷ s.jobs) (omega arith))
      ∙ ground (arith, eq_iff k patch.job_id, eq_iff patch.job_id k),
  total_new patch s e,
)

pub length-map_patch : (patch : Job) (xs : List Job) → length (map (patch_job patch) xs) ≡ length xs
length-map_patch patch [] = refl
length-map_patch patch (x ∷ xs) = ap suc (length-map_patch patch xs)

-- Updates never let the table outgrow the larger of its length and twenty rows.
pub length-update_job-le :
    (patch : Job) (s : JobStore) → length (update_job patch s).jobs ≤ max (length s.jobs) 20
length-update_job-le patch s = elim (Option-cases (row patch.job_id s)) [
  | inl e ↦ omega (
    arith,
    ap length (update_job_new patch s e),
    length-take {0} (max (length s.jobs) 20) (patch ∷ s.jobs),
  )
  | inr (j, e) ↦
      omega (arith, ap length (update_job_found patch s j e), length-map_patch patch s.jobs)
]

-- Whether the details view shows the job.
abbrev pub shows : String → Option JobDetails → Bool
shows job_id none = false
shows job_id (some d) = str_eq d.job.job_id job_id

shows-close_details :
    (job_id : String) (d : Option JobDetails) → shows job_id (close_details job_id d) ≡ false
shows-close_details job_id none = refl
shows-close_details job_id (some d) = ground arith

-- A removed job is gone from the table and from the details view, and the other rows stay.
pub row-remove_job :
    (job_id k : String) (s : JobStore)
    → (row k (remove_job job_id s) ≡ (if str_eq k job_id then none else row k s))
      × (shows job_id (remove_job job_id s).current_job_details ≡ false)
unfolding remove_job
row-remove_job job_id k s = (
  elim (Bool-cases (str_eq k job_id)) [
    | inl same ↦ rw same (
        subst (λ i. find (has_id i) (remove_job job_id s).jobs ≡ none)
          (sym ((eq_iff k job_id).0 same))
          (find_of_Fresh job_key job_id _ (Fresh-remove job_key job_id s.jobs)))
    | inr other ↦
        rw other (
          find-remove_ne job_key job_id k s.jobs (ground (arith, eq_iff k job_id, eq_iff job_id k)))
  ],
  shows-close_details job_id s.current_job_details,
)

-- The total falls with every removal, also of an id that the table does not list: the rows stay as
-- they were and the total loses one.
pub remove_job_absent :
    (job_id : String) (s : JobStore)
    → row job_id s ≡ none
    → ((remove_job job_id s).jobs ≡ s.jobs) × ((remove_job job_id s).total ≡ s.total - 1)
unfolding remove_job
remove_job_absent job_id s h = (filter_of_absent s.jobs h, refl)
  where
    filter_of_absent :
        (xs : List Job)
        → find (has_id job_id) xs ≡ none
        → filter (λ j. not (str_eq j.job_id job_id)) xs ≡ xs
    filter_of_absent [] e = refl
    filter_of_absent (x ∷ xs) e = ground (arith, filter_of_absent xs)
