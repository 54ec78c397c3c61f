-- ===== src/Pages/Tests.antt =====
-- The pages with one job, one server, one removal and a few users.
use emailjachai.Common.{
  ℕ, String, List, ◌-◌, ◌*◌, ◌≤◌, ◌<◌, ◌≡◌, ◌⊎◌, refl, true, false, none, some, [], ◌∷◌,
  if◌then◌else◌,
}
use emailjachai.Common.Text.{confirms}
use emailjachai.Stores.Jobs as Jobs
use emailjachai.Stores.Reply.{replied, rejected}
use emailjachai.Stores.Servers.{ServerNode, WorkerHeartbeatPayload}
use emailjachai.Stores.Users as Users
use emailjachai.Pages.JobList as JobList
use emailjachai.Pages.JobList.{JobsPage, shown_jobs, shown_total}
use emailjachai.Pages.JobList.Laws.{run, loads, deletion, deleted_job_returns}
use mathlib.Core.List.{Memᴰ as Mem}
use emailjachai.Pages.UserList.{total_pages, number_or, total_pages_lem}
use emailjachai.Pages.Servers.{
  KeyPanel, init_panel, reveal, copy_to_clipboard, open_modal, finish_password_action,
}
use emailjachai.Pages.Servers.Laws.{◌⟶*◌, here, opens, denied, sealed_without_password}
use emailjachai.Pages.JobControl.{
  Settings, lookup, with_defaults, accepts, Cleanup, confirm, deleting, success, begin_cleanup,
  finish_cleanup,
}
use emailjachai.Pages.JobControl.Saving.{
  Control, mount, entries, begin_save, reloaded, finish_fetch-begin_save, Holds-cons,
}
use emailjachai.Pages.JobControl.Laws.{OfferedDays, begin_cleanup_lem}

abbrev job : Jobs.Job
job = record {
  job_id = "a";
  filename = none;
  status = some "completed";
  total_emails = none;
  processed_count = none;
  created_at = none;
}

abbrev page : JobsPage
page = record {
  store = record { jobs = []; total = 0; current_job_details = none };
  initial_jobs = job ∷ [];
  initial_total = 1;
  is_loading = false;
  is_deleting = none;
  is_retrying = none;
  is_pausing = none;
  is_resuming = none;
  confirm_delete = none;
  offset = 0;
}

abbrev no_jobs : JobList.JobsList
no_jobs = record { jobs = some []; total = some 0 }

deleted_job_returns_example :
    Mem job (
      shown_jobs (
        JobList.finish_fetch
          (replied true (some no_jobs) "")
          (run (loads true ∷ []) (run (deletion "a") (run [] page)))))
    × (shown_total (
          JobList.finish_fetch
            (replied true (some no_jobs) "")
            (run (loads true ∷ []) (run (deletion "a") (run [] page))))
        ≡ 1)
deleted_job_returns_example =
    deleted_job_returns [] (loads true ∷ []) job no_jobs "" page (Mem.head refl) refl

abbrev server : ServerNode
server = record {
  id = 1;
  name = "w1";
  address = "10.0.0.1";
  port = "8080";
  status = "offline";
  ping = "--";
  running_time = "1h";
  emails_verified = 0;
  emails_verified_today = none;
  current_job = "";
  ip_reputation = "Good";
  worker_count = 1;
  warmup_enabled = some true;
  warmup_mode = none;
  warmup_stage = some "day 2";
  config = record { rate_limit = 0; chunk_size = 10; enabled = true };
}

abbrev heartbeat : WorkerHeartbeatPayload
heartbeat = record {
  server_name = some "w1";
  ip_address = none;
  status = some "active";
  enabled = none;
  worker_count = none;
  last_ping = none;
}

abbrev tried : KeyPanel
tried =
    finish_password_action reveal (replied false none "Wrong password")
      (open_modal (some reveal) init_panel)

tries : init_panel ⟶* tried
tries = denied reveal none "Wrong password" (opens (some reveal) here)

sealed_without_password_example :
    (tried.worker_key ≡ "")
    × (tried.show_api_key ≡ false)
    × ((copy_to_clipboard true tried).1 ≡ none)
sealed_without_password_example = sealed_without_password true tries

abbrev defaults : Settings
defaults = with_defaults (λ key. none)

defaults_accepted : accepts defaults ≡ true
unfolding with_defaults accepts
defaults_accepted = refl

abbrev limits : Control ℕ
limits = mount [] (some 3)

abbrev others : List (String × String)
others = ("site_title", "Mail") ∷ entries defaults

limits_saved : begin_save limits ≡ some (entries defaults, record limits { is_submitting = true })
unfolding begin_save accepts with_defaults mount lookup entries
limits_saved = refl

-- The page after a granted save, and its load with statistics that are refused.
abbrev loaded : Control ℕ
loaded =
    reloaded {B = ℕ} (replied true (some 0) "") others "" (replied false none "") defaults
      (record limits { is_submitting = true })

finish_fetch-begin_save_example :
    (accepts limits.settings_form ≡ true)
    × (loaded.settings_form ≡ limits.settings_form)
    × (loaded.is_loading ≡ false)
    × (loaded.is_saved ≡ true)
    × (begin_save loaded ≡ none)
finish_fetch-begin_save_example =
    finish_fetch-begin_save {B = ℕ} limits (record limits { is_submitting = true })
      (entries defaults) others (some 0) "" "" (replied false none "") defaults limits_saved
      (Holds-cons ("site_title", "Mail") (entries defaults))

abbrev asked : Cleanup
asked = record {
  is_cleaning = false;
  show_modal = true;
  days = "14";
  confirm_text = " delete ";
  step = confirm;
  deleted_count = 0;
  files_purged = 0;
}

abbrev running : Cleanup
running = record asked { is_cleaning = true; step = deleting }

cleanup_begins : begin_cleanup asked ≡ some (some 14, running)
unfolding begin_cleanup
cleanup_begins = refl

begin_cleanup_lem_example :
    (false ≡ false)
    × (confirms "DELETE" " delete " ≡ true)
    × OfferedDays (some 14)
    × (begin_cleanup running ≡ none)
    × (running.step ≡ deleting)
    × ((finish_cleanup rejected running).is_cleaning ≡ false)
    × ((finish_cleanup rejected running).step ≡ (if false then success else confirm))
begin_cleanup_lem_example = begin_cleanup_lem asked running (some 14) rejected cleanup_begins

abbrev many : Users.UsersStore
many = record {
  users = [];
  total = 51;
  page = 1;
  limit = 25;
  summary = Users.empty_summary;
  has_initialized = true;
}

three_pages : total_pages many ≡ 3
unfolding total_pages
three_pages = refl

total_pages_lem_example :
    (many.total ≤ total_pages many * number_or (some many.limit) 25)
    × (((total_pages many - 1) * number_or (some many.limit) 25 < many.total)
        ⊎ ((many.total ≡ 0) × (total_pages many ≡ 1)))
total_pages_lem_example = total_pages_lem many
