-- ===== src/Realtime/Tests.antt =====
-- A page on which the shell, the dashboard, the job list and the log viewer listen.
use mathlib.Core.List.{Permᴰ as Perm}
use emailjachai.Common.{
  ◌+◌, String, ◌≡◌, ◌⊎◌, refl, true, Option, none, some, List, [], ◌∷◌, arith, str_eq,
  if◌then◌else◌,
}
use emailjachai.Amount.{parse_credits}
use emailjachai.Stores.Dashboard.{missing, text, DashboardStats}
use emailjachai.Stores.Reset
use emailjachai.Realtime.Chart as Chart
use emailjachai.Realtime.LogFields.{Clock}
use emailjachai.Realtime.{
  Casts, Page, Hook, shell, dashboard, jobs, logs, on_message, dispatch, handle_user_update, listen,
}
use emailjachai.Realtime.Laws.{IsValid, receive_all, receive_all-IsValid}
use emailjachai.Realtime.Balance.{handle_user_update_lem}
use emailjachai.Realtime.Order.{dispatch-Perm}
use emailjachai.Realtime.Chart.{run-metrics, points, last_of}

abbrev figures : DashboardStats
figures = record {
  credits_remaining = "7";
  lifetime_verifications = "0";
  today_verifications = "0";
  api_verifications = none;
  total_jobs = 1;
  active_jobs = 0;
  weekly_activity = none;
  usage_breakdown = none;
}

-- The data of a message is the id of a job.
abbrev casts : Casts String
casts = record {
  stats = λ d. figures;
  job = λ d. record {
    job_id = d;
    filename = none;
    status = some "completed";
    total_emails = none;
    processed_count = none;
    created_at = none;
  };
  ws_job = λ d. record {
    job_id = text d;
    type = missing;
    job_type = missing;
    status = missing;
    total_emails = missing;
    processed_count = missing;
    filename = missing;
    created_at = missing;
  };
  ws_log = λ d. record {
    id = missing;
    user_id = missing;
    level = missing;
    source = missing;
    message = text d;
    ip = missing;
    created_at = missing;
    time = missing;
  };
  security_log = λ d. record {
    id = none;
    created_at = none;
    ip = none;
    cookie_id = none;
    browser = none;
    email = some d;
    status = none;
  };
  blocked =
      λ d. record { id = none; blocked_at = none; type = none; value = some d; reason = none };
  servers = λ d. none;
  heartbeat = λ d. record {
    server_name = some d;
    ip_address = none;
    status = none;
    enabled = none;
    worker_count = none;
    last_ping = none;
  };
  admin_stats = λ d. [];
  balance = λ d. none;
  credits = λ d. some 1200;
  metrics =
      λ d. record { cpu_load = none; ram_usage = none; latency_ms = none; requests_per_sec = none };
}

abbrev clock : Clock
clock = record {
  now = 1000;
  now_iso = "1970-01-01T00:00:01.000Z";
  time_of_day = "00:00:01";
  to_iso = λ s. none;
  parse_number = λ s. 0;
}

abbrev parse : String → Option (String × String)
parse frame = if str_eq frame "{job}" then some ("job_update", "a") else none

abbrev page : Page
page = record { stores = Reset.init; chart = Chart.init; fetches = 0 }

init-IsValid : IsValid Reset.init
unfolding Reset.init
init-IsValid = record {
  dashboard = record { few = omega arith; distinct = tt };
  jobs = tt;
  logs = record { bounded = omega arith; distinct = tt };
  security = record {
    few_logs = omega arith;
    few_blocked = omega arith;
    distinct_logs = tt;
    distinct_blocked = tt;
    counted = omega arith;
  };
}

abbrev mounted : List Hook
mounted = shell ∷ dashboard ∷ jobs ∷ logs ∷ []

abbrev frames : List (List Hook × Option String × Clock)
frames =
    (mounted, some "{job}", clock) ∷ (mounted, some "ping", clock) ∷ (mounted, none, clock) ∷ []

-- The job of the message is the only row of the table, and the only recent job.
on_message_test :
    (on_message casts parse mounted (some "{job}") clock page).stores.jobs.jobs ≡ casts.job "a" ∷ []
unfolding on_message listen Reset.init
on_message_test = refl

receive_all-IsValid_example : IsValid (receive_all casts parse frames page).stores
receive_all-IsValid_example = receive_all-IsValid casts parse frames page init-IsValid

dispatch-Perm_example :
    dispatch casts (dashboard ∷ jobs ∷ []) "job_update" "a" clock page
    ≡ dispatch casts (jobs ∷ dashboard ∷ []) "job_update" "a" clock page
dispatch-Perm_example = dispatch-Perm casts "job_update" "a" clock page (Perm.swap refl refl)

handle_user_update_lem_example :
    ((handle_user_update (some 1200) 5 page).stores.credits.balance ≡ 1200)
    × (((d : DashboardStats) × (shown : String) × (page.stores.dashboard.stats ≡ some d)
          × ((handle_user_update (some 1200) 5 page).stores.dashboard.stats
              ≡ some (record d { credits_remaining = shown }))
          × (parse_credits shown ≡ some 1200))
        ⊎ ((page.stores.dashboard.stats ≡ none)
            × ((handle_user_update (some 1200) 5 page).stores.dashboard.is_loading_stats ≡ true)
            × ((handle_user_update (some 1200) 5 page).fetches ≡ page.fetches + 1)))
handle_user_update_lem_example = handle_user_update_lem 1200 5 page

abbrev beats : List (String × Chart.MetricsPayload)
beats = ("00:00:01", casts.metrics "a") ∷ ("00:00:02", casts.metrics "b") ∷ []
