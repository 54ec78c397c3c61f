-- ===== src/Realtime.antt =====
-- What a frame of the socket does to the page: `onmessage` of frontend/hooks/use-socket.ts, and the
-- listeners of the hooks that are mounted.
pub mod Chart
pub mod LogFields
pub mod Laws
pub mod Balance
pub mod Order
mod Tests
use emailjachai.Common.{
  ℕ, ◌+◌, String, Bool, true, false, not, ◌||◌, Option, none, some, List, [], ◌∷◌, str_eq,
  if◌then◌else◌,
}
use emailjachai.Common.Text.{codes, starts_with, trim}
use emailjachai.Amount.{format_number}
use emailjachai.Stores.Dashboard.{
  DashboardState, DashboardStats, WsJob, set_stats, handle_job_update, begin_fetch_stats,
}
use emailjachai.Stores.Jobs.{Job, update_job}
use emailjachai.Stores.Logs.{add_live_log}
use emailjachai.Stores.Credits.{CreditState, set_balance, set_last_fetched}
use emailjachai.Stores.Security.{SecurityLog, BlockedEntry, add_log, add_blocked}
use emailjachai.Stores.Servers.{
  ServerNode, WorkerHeartbeatPayload, set_servers, apply_worker_heartbeat,
}
use emailjachai.Stores.Account.{set_admin}
use emailjachai.Stores.Reset.{Stores}
use emailjachai.Realtime.Chart.{Metrics, MetricsPayload, handle_metrics_update}
use emailjachai.Realtime.LogFields.{Clock, WsLog, format_log}

-- What the listeners read of a message's `data`, which they cast and do not check. `servers` is none
-- where `data` is no array, `balance` and `credits` are none where that field is no number, and
-- `heartbeat` of null is the empty payload.
pub record Casts (Json : Type 0) : Type 0 where
  pub stats : Json → DashboardStats
  pub job : Json → Job
  pub ws_job : Json → WsJob
  pub ws_log : Json → WsLog
  pub security_log : Json → SecurityLog
  pub blocked : Json → BlockedEntry
  pub servers : Json → Option (List ServerNode)
  pub heartbeat : Json → WorkerHeartbeatPayload
  pub admin_stats : Json → List (String × String)
  pub balance : Json → Option ℕ
  pub credits : Json → Option ℕ
  pub metrics : Json → MetricsPayload

-- The stores, the chart of the monitoring page, and the number of loads of the figures that the
-- listeners began.
pub record Page : Type 0 where
  pub stores : Stores
  pub chart : Metrics
  pub fetches : ℕ

-- The hooks and components that listen.
pub data Hook : Type 0 where
  shell dashboard jobs logs security servers admin monitoring : Hook

unfoldable pub handle_credit_update : Option ℕ → ℕ → Page → Page
unfolding set_balance set_last_fetched
handle_credit_update none now s = s
handle_credit_update (some n) now s = record s {
  stores = record (s.stores) { credits = set_last_fetched now (set_balance n s.stores.credits) };
}

-- The figures are set where they are loaded; otherwise a load of them begins.
unfoldable pub show_credits : ℕ → ℕ → Page → Page
unfolding set_stats begin_fetch_stats format_number
show_credits n now s = elim s.stores.dashboard.stats [
  | none ↦ elim (begin_fetch_stats true s.stores.dashboard) [
    | none ↦ s
    | some loading ↦ record s {
      stores = record (s.stores) { dashboard = loading };
      fetches = s.fetches + 1;
    }
  ]
  | some d ↦ record s {
    stores = record (s.stores) {
      dashboard =
          set_stats (record d { credits_remaining = format_number n }) now s.stores.dashboard;
    };
  }
]

unfoldable pub handle_user_update : Option ℕ → ℕ → Page → Page
unfolding handle_credit_update show_credits
handle_user_update none now s = s
handle_user_update (some n) now s = show_credits n now (handle_credit_update (some n) now s)

abbrev pub with_stores : Stores → Page → Page
with_stores stores s = record s { stores = stores }

module _ {Json : Type 0} (casts : Casts Json) where
  unfoldable pub on_stats : Json → Clock → Page → Page
  unfolding set_stats
  on_stats d c s =
      with_stores
        (record (s.stores) { dashboard = set_stats (casts.stats d) c.now s.stores.dashboard }) s

  unfoldable pub on_recent_job : Json → Page → Page
  unfolding handle_job_update
  on_recent_job d s =
      with_stores
        (record (s.stores) { dashboard = handle_job_update (casts.ws_job d) s.stores.dashboard }) s

  unfoldable pub on_job : Json → Page → Page
  unfolding update_job
  on_job d s = with_stores (record (s.stores) { jobs = update_job (casts.job d) s.stores.jobs }) s

  unfoldable pub on_heartbeat : Json → Page → Page
  unfolding apply_worker_heartbeat
  on_heartbeat d s =
      with_stores
        (record (s.stores) {
          servers = apply_worker_heartbeat (casts.heartbeat d) s.stores.servers;
        })
        s

  unfoldable pub on_admin_stats : Json → Page → Page
  unfolding set_admin
  on_admin_stats d s =
      with_stores (record (s.stores) { admin = set_admin (casts.admin_stats d) s.stores.admin }) s

  unfoldable pub on_security_log : Json → Page → Page
  unfolding add_log
  on_security_log d s =
      with_stores
        (record (s.stores) { security = add_log (casts.security_log d) s.stores.security }) s

  unfoldable pub on_blocked : Json → Page → Page
  unfolding add_blocked
  on_blocked d s =
      with_stores (record (s.stores) { security = add_blocked (casts.blocked d) s.stores.security })
        s

  unfoldable pub on_log : Json → Clock → Page → Page
  unfolding format_log add_live_log
  on_log d c s =
      with_stores
        (record (s.stores) { logs = add_live_log (format_log c (casts.ws_log d)) s.stores.logs }) s

  unfoldable pub on_servers : Json → Page → Page
  unfolding set_servers
  on_servers d s = elim (casts.servers d) [
    | none ↦ s
    | some xs ↦ with_stores (record (s.stores) { servers = set_servers xs s.stores.servers }) s
  ]

  unfoldable pub on_metrics : Json → Clock → Page → Page
  unfolding handle_metrics_update
  on_metrics d c s = record s {
    chart = handle_metrics_update c.time_of_day (casts.metrics d) s.chart;
  }

  -- The listener that a hook adds for a type of message; a hook leaves the page for other types.
  unfoldable pub listen : Hook → String → Json → Clock → Page → Page
  unfolding handle_credit_update handle_user_update on_stats on_recent_job on_job on_heartbeat
      on_admin_stats on_security_log on_blocked on_log on_servers on_metrics
  listen shell type d c s =
      if str_eq type "credit_update"
      then handle_credit_update (casts.balance d) c.now s
      else if str_eq type "user_update"
      then handle_user_update (casts.credits d) c.now s
      else s
  listen dashboard type d c s =
      if str_eq type "user_stats_update"
      then on_stats d c s
      else if str_eq type "job_update"
      then on_recent_job d s
      else s
  listen jobs type d c s =
      if str_eq type "job_update"
      then on_job d s
      else if str_eq type "user_stats_update"
      then on_stats d c s
      else s
  listen logs type d c s = if str_eq type "system_log_update" then on_log d c s else s
  listen security type d c s =
      if str_eq type "security_log"
      then on_security_log d s
      else if str_eq type "blocklist_update"
      then on_blocked d s
      else s
  listen servers type d c s =
      if str_eq type "server_list_update"
      then on_servers d s
      else if str_eq type "worker_update"
      then on_heartbeat d s
      else s
  listen admin type d c s = if str_eq type "admin_stats_update" then on_admin_stats d s else s
  listen monitoring type d c s =
      if str_eq type "worker_update" || str_eq type "system_metrics" then on_metrics d c s else s

  -- The listeners run in the order in which they were added.
  unfoldable pub dispatch : List Hook → String → Json → Clock → Page → Page
  dispatch [] type d c s = s
  dispatch (h ∷ rest) type d c s = dispatch rest type d c (listen h type d c s)

  -- `JSON.parse` gives the type and the data of a message, or throws.
  module _ (parse : String → Option (String × Json)) where
    -- Empty frames and frames that do not begin like an object are skipped.
    abbrev pub is_skipped : String → Bool
    is_skipped frame = str_eq frame "" || not (starts_with (codes (trim frame)) (codes "{"))

    abbrev pub on_text : List Hook → String → Clock → Page → Page
    on_text hooks frame c s = elim (parse frame) [
      | none ↦ s
      | some (type, d) ↦ dispatch hooks type d c s
    ]

    -- A frame that is no text is `none`.
    unfoldable pub on_message : List Hook → Option String → Clock → Page → Page
    unfolding dispatch trim
    on_message hooks none c s = s
    on_message hooks (some frame) c s = if is_skipped frame then s else on_text hooks frame c s
