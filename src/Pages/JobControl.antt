-- ===== src/Pages/JobControl.antt =====
-- frontend/app/admin/job-control/job-control-client.tsx: the limits of jobs, and the removal of old ones.
pub mod Laws
pub mod Saving
use Prim.Native.Char.{code}
use Prim.Native.String.{[], ◌∷◌}
use Prim.Native.String
use emailjachai.Common.{
  ℕ, String, Bool, true, false, not, ◌||◌, ◌&&◌, Option, none, some, List, [], ◌∷◌, if◌then◌else◌,
  str_eq, leb, any,
}
use emailjachai.Common.Text.{text_or, nullish, is_digit, trim, confirms}
use emailjachai.Amount.{to_number}
use emailjachai.Stores.Reply.{Reply, replied, rejected}

-- `/^\d+$/`.
unfoldable pub all_digits : String → Bool
all_digits String.[] = true
all_digits (String.◌∷◌ c s) = is_digit (code c) && all_digits s

unfoldable pub is_number : String → Bool
unfolding all_digits
is_number s = not (str_eq s "") && all_digits s

abbrev pub within : ℕ → ℕ → Option ℕ → Bool
within lo hi none = false
within lo hi (some n) = leb lo n && leb n hi

-- A number, and between bounds.
unfoldable pub is_between : ℕ → ℕ → String → Bool
unfolding is_number to_number
is_between lo hi s = is_number s && within lo hi (to_number s)

pub record Settings : Type 0 where
  pub chunk_tier1_max_list : String
  pub chunk_tier1_size : String
  pub chunk_tier1_timeout : String
  pub chunk_tier2_max_list : String
  pub chunk_tier2_size : String
  pub chunk_tier2_timeout : String
  pub chunk_tier3_max_list : String
  pub chunk_tier3_size : String
  pub chunk_tier3_timeout : String
  pub max_emails_per_job : String
  pub max_active_jobs_per_user : String
  pub prepare_concurrency : String
  pub worker_concurrency : String

-- `settingsSchema`.
unfoldable pub accepts : Settings → Bool
unfolding is_number is_between
accepts s =
    is_number s.chunk_tier1_max_list
    && is_number s.chunk_tier1_size
    && is_number s.chunk_tier1_timeout
    && is_number s.chunk_tier2_max_list
    && is_number s.chunk_tier2_size
    && is_number s.chunk_tier2_timeout
    && is_number s.chunk_tier3_max_list
    && is_number s.chunk_tier3_size
    && is_number s.chunk_tier3_timeout
    && is_between 10 1000000 s.max_emails_per_job
    && is_between 0 10000 s.max_active_jobs_per_user
    && is_between 1 10 s.prepare_concurrency
    && is_between 1 100 s.worker_concurrency

-- `mappedSettings`: the last row of a key holds its value.
unfoldable pub lookup : String → List (String × String) → Option String
lookup key [] = none
lookup key ((k, v) ∷ rest) = elim (lookup key rest) [
  | some w ↦ some w
  | none ↦ if str_eq k key then some v else none
]

-- The values of the form from the settings that are there.
unfoldable pub with_defaults : (String → Option String) → Settings
with_defaults get = record {
  chunk_tier1_max_list = text_or (get "chunk_tier1_max_list") "50000";
  chunk_tier1_size = text_or (get "chunk_tier1_size") "100";
  chunk_tier1_timeout = text_or (get "chunk_tier1_timeout") "15";
  chunk_tier2_max_list = text_or (get "chunk_tier2_max_list") "100000";
  chunk_tier2_size = text_or (get "chunk_tier2_size") "500";
  chunk_tier2_timeout = text_or (get "chunk_tier2_timeout") "60";
  chunk_tier3_max_list = text_or (get "chunk_tier3_max_list") "500000";
  chunk_tier3_size = text_or (get "chunk_tier3_size") "1000";
  chunk_tier3_timeout = text_or (get "chunk_tier3_timeout") "120";
  max_emails_per_job = text_or (get "max_emails_per_job") "100000";
  max_active_jobs_per_user = text_or (get "max_active_jobs_per_user") "0";
  prepare_concurrency = text_or (get "prepare_concurrency") "1";
  worker_concurrency = text_or (get "worker_concurrency") "10";
}

pub data CleanupStep : Type 0 where
  confirm deleting success : CleanupStep

pub record Cleanup : Type 0 where
  pub is_cleaning : Bool
  pub show_modal : Bool
  pub days : String
  pub confirm_text : String
  pub step : CleanupStep
  pub deleted_count : ℕ
  pub files_purged : ℕ

unfoldable pub open_cleanup_modal : Cleanup → Cleanup
open_cleanup_modal s = record s { step = confirm; confirm_text = ""; show_modal = true }

abbrev pub allowed_cleanup_days : List String
allowed_cleanup_days = "7" ∷ "14" ∷ "21" ∷ "30" ∷ []

-- `handleCleanup` up to its request, which names the days. The button is disabled while a removal is
-- under way.
unfoldable pub begin_cleanup : Cleanup → Option (Option ℕ × Cleanup)
unfolding to_number confirms
begin_cleanup s =
    if s.is_cleaning
      || not (any (str_eq s.days) allowed_cleanup_days)
      || not (confirms "DELETE" s.confirm_text)
    then none
    else some (to_number s.days, record s { step = deleting; is_cleaning = true })

pub record CleanupResult : Type 0 where
  pub deleted_count : Option ℕ
  pub files_purged : Option ℕ

abbrev pub count_deleted : Option CleanupResult → ℕ
count_deleted none = 0
count_deleted (some r) = nullish r.deleted_count 0

abbrev pub count_purged : Option CleanupResult → ℕ
count_purged none = 0
count_purged (some r) = nullish r.files_purged 0

unfoldable pub finish_cleanup : Reply CleanupResult → Cleanup → Cleanup
finish_cleanup (replied true body m) s = record s {
  is_cleaning = false;
  step = success;
  deleted_count = count_deleted body;
  files_purged = count_purged body;
}
finish_cleanup (replied false body m) s = record s { is_cleaning = false; step = confirm }
finish_cleanup rejected s = record s { is_cleaning = false; step = confirm }
