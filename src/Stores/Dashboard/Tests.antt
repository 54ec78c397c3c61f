-- ===== src/Stores/Dashboard/Tests.antt =====
-- A job message on an empty dashboard.
use emailjachai.Common.{◌≡◌, refl, none, some}
use emailjachai.Stores.Dashboard.{RecentDashboardJob, WsJob, missing, number, text, to_recent_job}

abbrev message : WsJob
message = record {
  job_id = text "a";
  type = missing;
  job_type = missing;
  status = text "completed";
  total_emails = number 7;
  processed_count = number 7;
  filename = missing;
  created_at = missing;
}

abbrev job : RecentDashboardJob
job = record {
  job_id = "a";
  status = "completed";
  total_emails = 7;
  filename = some none;
  processed_count = some (some 7);
  created_at = some none;
  type = some none;
}

message-job : to_recent_job message ≡ some job
unfolding to_recent_job
message-job = refl
