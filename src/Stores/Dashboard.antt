-- ===== src/Stores/Dashboard.antt =====
-- frontend/stores/dashboard-store.ts, and the job updates that frontend/hooks/use-dashboard-web-socket.ts
-- turns into rows.
pub mod Laws
mod Tests
use emailjachai.Common.{
  ℕ, String, Bool, true, false, not, ◌&&◌, ◌||◌, Option, none, some, List, [], ◌∷◌, str_eq,
  if◌then◌else◌, take, find, filter,
}
use emailjachai.Common.Text.{over, show_num}
use emailjachai.Stores.Reply.{Reply, replied, rejected}

pub record DashboardStats : Type 0 where
  pub credits_remaining : String
  pub lifetime_verifications : String
  pub today_verifications : String
  pub api_verifications : Option String
  pub total_jobs : ℕ
  pub active_jobs : ℕ
  pub weekly_activity : Option (List (String × ℕ × ℕ))
  pub usage_breakdown : Option (List (String × ℕ × String))

-- An optional field is `none` where the object has no such key, and `some none` where the key is
-- there with null or undefined.
pub record RecentDashboardJob : Type 0 where
  pub job_id : String
  pub status : String
  pub total_emails : ℕ
  pub filename : Option (Option String)
  pub processed_count : Option (Option ℕ)
  pub created_at : Option (Option String)
  pub type : Option (Option String)

pub record DashboardState : Type 0 where
  pub stats : Option DashboardStats
  pub recent_jobs : List RecentDashboardJob
  pub is_loading_stats : Bool
  pub last_fetched_stats : Option ℕ

unfoldable pub init : DashboardState
init = record {
  stats = none;
  recent_jobs = [];
  is_loading_stats = false;
  last_fetched_stats = none;
}

abbrev pub is_some {ℓ} : {A : Type ℓ} → Option A → Bool
is_some none = false
is_some (some a) = true

-- `fetchStats` up to its request; `none` where it returns at once.
unfoldable pub begin_fetch_stats : Bool → DashboardState → Option DashboardState
begin_fetch_stats force s =
    if not force && (s.is_loading_stats || is_some s.stats)
    then none
    else some (record s { is_loading_stats = true })

-- `fetchStats` from its reply on, at the time `now`.
unfoldable pub finish_fetch_stats : Reply DashboardStats → ℕ → DashboardState → DashboardState
finish_fetch_stats (replied true (some d) m) now s = record s {
  stats = some d;
  last_fetched_stats = some now;
  is_loading_stats = false;
}
finish_fetch_stats (replied true none m) now s = record s { is_loading_stats = false }
finish_fetch_stats (replied false body m) now s = record s { is_loading_stats = false }
finish_fetch_stats rejected now s = record s { is_loading_stats = false }

unfoldable pub set_stats : DashboardStats → ℕ → DashboardState → DashboardState
set_stats d now s = record s { stats = some d; last_fetched_stats = some now }

unfoldable pub set_recent_jobs : List RecentDashboardJob → DashboardState → DashboardState
set_recent_jobs jobs s = record s { recent_jobs = take 4 jobs }

-- `{ ...previous, ...job }`.
unfoldable pub overlay : Option RecentDashboardJob → RecentDashboardJob → RecentDashboardJob
overlay none job = job
overlay (some previous) job = record {
  job_id = job.job_id;
  status = job.status;
  total_emails = job.total_emails;
  filename = over job.filename previous.filename;
  processed_count = over job.processed_count previous.processed_count;
  created_at = over job.created_at previous.created_at;
  type = over job.type previous.type;
}

unfoldable pub upsert_recent_job : RecentDashboardJob → DashboardState → DashboardState
unfolding overlay
upsert_recent_job job s = if str_eq job.job_id "" then s else record s {
  recent_jobs = take 4 (
      overlay (find (λ item. str_eq item.job_id job.job_id) s.recent_jobs) job
      ∷ filter (λ item. not (str_eq item.job_id job.job_id)) s.recent_jobs);
}

-- A field of a socket message: its JavaScript type decides. `other` holds what `String` gives of a
-- value that is no text, number, null or undefined.
pub data Field : Type 0 where
  missing : Field
  number : ℕ → Field
  text : String → Field
  other : String → Field

pub record WsJob : Type 0 where
  pub job_id : Field
  pub type : Field
  pub job_type : Field
  pub status : Field
  pub total_emails : Field
  pub processed_count : Field
  pub filename : Field
  pub created_at : Field

abbrev pub text_of : Field → Option String
text_of missing = none
text_of (number n) = none
text_of (text s) = some s
text_of (other s) = none

abbrev pub number_of : Field → Option ℕ
number_of missing = none
number_of (number n) = some n
number_of (text s) = none
number_of (other s) = none

-- `typeof v === 'string' && v`: the empty text counts as missing.
abbrev pub filled : Field → Option String
filled missing = none
filled (number n) = none
filled (text s) = if str_eq s "" then none else some s
filled (other s) = none

abbrev pub date_of : Field → Option String
date_of missing = none
date_of (number n) = some (show_num n)
date_of (text s) = some s
date_of (other s) = some s

abbrev pub or_default {ℓ} : {A : Type ℓ} → Option A → A → A
or_default none d = d
or_default (some a) d = a

unfoldable pub to_recent_job : WsJob → Option RecentDashboardJob
to_recent_job d = elim (filled d.job_id) [
  | none ↦ none
  | some job_id ↦ some (record {
    job_id = job_id;
    status = or_default (text_of d.status) "pending";
    total_emails = or_default (number_of d.total_emails) 0;
    filename = some (text_of d.filename);
    processed_count = some (number_of d.processed_count);
    created_at = some (date_of d.created_at);
    type = some (over (filled d.type) (filled d.job_type));
  })
]

-- The listener of `ws:job_update`.
unfoldable pub handle_job_update : WsJob → DashboardState → DashboardState
unfolding to_recent_job upsert_recent_job
handle_job_update d s = elim (to_recent_job d) [ none ↦ s | some job ↦ upsert_recent_job job s ]
