-- ===== src/Pages/JobControl/Saving.antt =====
-- frontend/app/admin/job-control/job-control-client.tsx: the load of the page and the save of its limits.
use emailjachai.Common.{
  String, ◌≡◌, refl, sym, subst, Bool, true, false, not, ◌||◌, Option, none, some, List, [], ◌∷◌,
  if◌then◌else◌, arith, str_eq, Bool-cases, inl, inr,
}
use mathlib.Core.Option.{some-injective}
use emailjachai.Common.Text.{text_or}
use emailjachai.Stores.Reply.{Reply, replied, rejected}
use emailjachai.Pages.JobControl.{Settings, is_number, is_between, accepts, lookup, with_defaults}

-- The page without its removal dialog. What the statistics hold is only shown.
pub record Control (A : Type 0) : Type 0 where
  pub settings_form : Settings
  pub stats : Option A
  pub is_loading : Bool
  pub is_saved : Bool
  pub is_submitting : Bool

-- The page at its first render.
unfoldable pub mount : {A : Type 0} → List (String × String) → Option A → Control A
mount initial_settings initial_stats = record {
  settings_form = with_defaults (λ key. lookup key initial_settings);
  stats = initial_stats;
  is_loading = false;
  is_saved = false;
  is_submitting = false;
}

-- Whether the page loads what the server did not render.
unfoldable pub loads_on_mount : {A : Type 0} → List (String × String) → Option A → Bool
loads_on_mount _ (some _) = false
loads_on_mount [] none = true
loads_on_mount (_ ∷ _) none = false

unfoldable pub begin_fetch : {A : Type 0} → Control A → Control A
begin_fetch s = record s { is_loading = true }

unfoldable pub reset_form :
    {A : Type 0} → Bool → Option (List (String × String)) → Control A → Control A
reset_form true (some rows) s = record s { settings_form = with_defaults (λ key. lookup key rows) }
reset_form true none s = s
reset_form false rows s = s

unfoldable pub set_stats : {A : Type 0} → Bool → Option A → Control A → Control A
set_stats true (some d) s = record s { stats = some d }
set_stats true none s = s
set_stats false d s = s

-- `fetchData` after both of its answers; a rejection of either leaves the page as it is.
unfoldable pub finish_fetch :
    {A : Type 0} → Reply (List (String × String)) → Reply A → Control A → Control A
finish_fetch rejected answer s = record s { is_loading = false }
finish_fetch (replied ok rows m) rejected s = record s { is_loading = false }
finish_fetch (replied ok rows m) (replied granted d n) s =
    record (set_stats granted d (reset_form ok rows s)) { is_loading = false }

-- The body of the save: the values of the form under their names.
unfoldable pub entries : Settings → List (String × String)
entries f =
    ("chunk_tier1_max_list", f.chunk_tier1_max_list)
    ∷ ("chunk_tier1_size", f.chunk_tier1_size)
    ∷ ("chunk_tier1_timeout", f.chunk_tier1_timeout)
    ∷ ("chunk_tier2_max_list", f.chunk_tier2_max_list)
    ∷ ("chunk_tier2_size", f.chunk_tier2_size)
    ∷ ("chunk_tier2_timeout", f.chunk_tier2_timeout)
    ∷ ("chunk_tier3_max_list", f.chunk_tier3_max_list)
    ∷ ("chunk_tier3_size", f.chunk_tier3_size)
    ∷ ("chunk_tier3_timeout", f.chunk_tier3_timeout)
    ∷ ("max_emails_per_job", f.max_emails_per_job)
    ∷ ("max_active_jobs_per_user", f.max_active_jobs_per_user)
    ∷ ("prepare_concurrency", f.prepare_concurrency)
    ∷ ("worker_concurrency", f.worker_concurrency)
    ∷ []

-- `onSaveSettings` up to its request. The button is disabled while a save is under way or its success
-- is shown, and the form refuses what its schema does not accept.
unfoldable pub begin_save : {A : Type 0} → Control A → Option (List (String × String) × Control A)
begin_save s =
    if s.is_submitting || s.is_saved || not (accepts s.settings_form)
    then none
    else some (entries s.settings_form, record s { is_saved = false; is_submitting = true })

-- `onSaveSettings` after its answer: a success is shown and begins a load.
unfoldable pub finish_save : {A B : Type 0} → Reply B → Control A → Control A
unfolding begin_fetch
finish_save (replied true body m) s =
    begin_fetch (record s { is_submitting = false; is_saved = true })
finish_save (replied false body m) s = record s { is_submitting = false }
finish_save rejected s = record s { is_submitting = false }

-- The timer of the shown success.
unfoldable pub expire_saved : {A : Type 0} → Control A → Control A
expire_saved s = record s { is_saved = false }

-- Rows that hold what a save sent, among others and in any order.
abbrev pub Holds : List (String × String) → List (String × String) → Type 0
Holds sent rows = (key v : String) → lookup key sent ≡ some v → lookup key rows ≡ some v

refuted : (b : Bool) → not b ≡ true → b ≡ false
refuted b h = ground arith

text_or-kept :
    (o : Option String) (d v : String) → o ≡ some v → is_number v ≡ true → text_or o d ≡ v
unfolding is_number
text_or-kept o d v e h = rw (e, refuted (str_eq v "") (ground arith)) refl

module _ (f : Settings) (ok : accepts f ≡ true) where
  -- A field of the form in rows that hold the form.
  field :
      (rows : List (String × String))
      → Holds (entries f) rows
      → (key d v : String) → lookup key (entries f) ≡ some v
      → is_number v ≡ true
      → text_or (lookup key rows) d ≡ v
  field rows h key d v e n = text_or-kept (lookup key rows) d v (h key v e) n

  with_defaults-lookup :
      (rows : List (String × String))
      → Holds (entries f) rows
      → with_defaults (λ key. lookup key rows) ≡ f
  unfolding accepts is_between with_defaults entries lookup
  with_defaults-lookup rows h =
      let one = field rows h in
      rw
        (
          one "chunk_tier1_max_list" "50000" f.chunk_tier1_max_list refl (ground arith),
          one "chunk_tier1_size" "100" f.chunk_tier1_size refl (ground arith),
          one "chunk_tier1_timeout" "15" f.chunk_tier1_timeout refl (ground arith),
          one "chunk_tier2_max_list" "100000" f.chunk_tier2_max_list refl (ground arith),
          one "chunk_tier2_size" "500" f.chunk_tier2_size refl (ground arith),
          one "chunk_tier2_timeout" "60" f.chunk_tier2_timeout refl (ground arith),
          one "chunk_tier3_max_list" "500000" f.chunk_tier3_max_list refl (ground arith),
          one "chunk_tier3_size" "1000" f.chunk_tier3_size refl (ground arith),
          one "chunk_tier3_timeout" "120" f.chunk_tier3_timeout refl (ground arith),
          one "max_emails_per_job" "100000" f.max_emails_per_job refl (ground arith),
          one "max_active_jobs_per_user" "0" f.max_active_jobs_per_user refl (ground arith),
          one "prepare_concurrency" "1" f.prepare_concurrency refl (ground arith),
          one "worker_concurrency" "10" f.worker_concurrency refl (ground arith),
        )
        refl

-- Whether a request was answered at all.
abbrev pub is_answered : {A : Type 0} → Reply A → Bool
is_answered (replied granted body m) = true
is_answered rejected = false

finish_fetch-form :
    {A : Type 0} (rows : List (String × String)) (m : String) (r : Reply A) (c : Control A)
    → ((finish_fetch (replied true (some rows) m) r c).settings_form
        ≡ (if is_answered r then with_defaults (λ key. lookup key rows) else c.settings_form))
      × ((finish_fetch (replied true (some rows) m) r c).is_loading ≡ false)
      × ((finish_fetch (replied true (some rows) m) r c).is_saved ≡ c.is_saved)
      × ((finish_fetch (replied true (some rows) m) r c).is_submitting ≡ c.is_submitting)
unfolding finish_fetch reset_form set_stats
finish_fetch-form rows m rejected c = (refl, refl, refl, refl)
finish_fetch-form rows m (replied true (some d) n) c = (refl, refl, refl, refl)
finish_fetch-form rows m (replied true none n) c = (refl, refl, refl, refl)
finish_fetch-form rows m (replied false d n) c = (refl, refl, refl, refl)

-- The page after a granted save and the answers of the load that it begins, with the form as it was
-- edited in between.
abbrev pub reloaded :
    {A B : Type 0}
    → Reply B
    → List (String × String)
    → String
    → Reply A
    → Settings
    → Control A
    → Control A
reloaded b rows m r edited t =
    finish_fetch (replied true (some rows) m) r
      (record (finish_save b t) { settings_form = edited })

-- A save goes out only with limits that the form accepts. Where it is granted, and the load that
-- follows gives rows that hold what was sent, in any order and among others, the form shows the limits
-- as they were sent, whatever was edited during the load and whether the statistics are granted or
-- not; only where the request for the statistics is rejected the form stays as it was edited. The
-- success is shown, and no other save goes out until its timer ends.
pub finish_fetch-begin_save :
    {A B : Type 0} (s t : Control A) (sent rows : List (String × String)) (b : Option B)
    → (k m : String) (r : Reply A) (edited : Settings) → begin_save s ≡ some (sent, t)
    → Holds sent rows
    → (accepts s.settings_form ≡ true)
      × ((reloaded (replied true b k) rows m r edited t).settings_form
          ≡ (if is_answered r then s.settings_form else edited))
      × ((reloaded (replied true b k) rows m r edited t).is_loading ≡ false)
      × ((reloaded (replied true b k) rows m r edited t).is_saved ≡ true)
      × (begin_save (reloaded (replied true b k) rows m r edited t) ≡ none)
unfolding begin_save finish_save begin_fetch
finish_fetch-begin_save s t sent rows b k m r edited h g =
    elim (Bool-cases (s.is_submitting || s.is_saved || not (accepts s.settings_form))) [
      | inl e ↦ absurd (cc (rw (e, begin_save) at h))
      | inr e ↦
          let q = some-injective _ _ (rw (e, begin_save) at h) in
          let ok : accepts s.settings_form ≡ true = ground arith in
          let holds = subst (λ x. Holds x.0 rows) (sym q) g in
          let (form, loading, saved, submitting) =
            finish_fetch-form rows m r
              (record (finish_save (replied true b k) t) { settings_form = edited }) in
          (
            ok,
            rw (form, with_defaults-lookup s.settings_form ok rows holds) refl,
            loading,
            saved,
            rw (submitting, saved) refl,
          )
    ]

-- Rows with one more before them still hold what they held.
pub Holds-cons : (x : String × String) (rows : List (String × String)) → Holds rows (x ∷ rows)
unfolding lookup
Holds-cons (k, w) rows key v e = rw e refl
