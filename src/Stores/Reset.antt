-- ===== src/Stores/Reset.antt =====
-- frontend/stores/store-reset.ts: what a logout does to the nine stores that it names.
use emailjachai.Common.{ℕ, String, ◌≡◌, refl, true, false, none, some, []}
use emailjachai.Stores.Reply.{replied}
use emailjachai.Stores.Dashboard
use emailjachai.Stores.Jobs
use emailjachai.Stores.Logs
use emailjachai.Stores.Credits
use emailjachai.Stores.Security
use emailjachai.Stores.Servers
use emailjachai.Stores.Users
use emailjachai.Stores.Config
use emailjachai.Stores.Account

pub record Stores : Type 0 where
  pub dashboard : Dashboard.DashboardState
  pub jobs : Jobs.JobStore
  pub logs : Logs.LogsStore
  pub credits : Credits.CreditState
  pub security : Security.SecurityState
  pub servers : Servers.ServerStore
  pub admin : Account.AdminStore
  pub users : Users.UsersStore
  pub config : Config.ConfigState

unfoldable pub init : Stores
unfolding Dashboard.init Jobs.init Logs.init Credits.init Security.init Servers.init
    Account.init_admin Users.init Config.init
init = record {
  dashboard = Dashboard.init;
  jobs = Jobs.init;
  logs = Logs.init;
  credits = Credits.init;
  security = Security.init;
  servers = Servers.init;
  admin = Account.init_admin;
  users = Users.init;
  config = Config.init;
}

-- Each `setState` overlays the fields that it names on the store.
unfoldable pub reset_all_stores : Stores → Stores
unfolding Account.reset_admin Users.reset
reset_all_stores s = record {
  dashboard = record (s.dashboard) {
    stats = none;
    recent_jobs = [];
    is_loading_stats = false;
    last_fetched_stats = none;
  };
  jobs = record (s.jobs) { jobs = []; total = 0; current_job_details = none };
  logs = record (s.logs) {
    logs = [];
    total = 0;
    has_more = false;
    next_before_id = none;
    next_before_created_at = none;
  };
  credits = record (s.credits) { balance = 0; is_loading = false; last_fetched = none };
  security = record (s.security) {
    logs = [];
    blocked = [];
    stats = Security.zero_stats;
    daily_limit = "10";
    is_verification_enabled = true;
    has_initialized = false;
  };
  servers = record (s.servers) { servers = [] };
  admin = Account.reset_admin s.admin;
  users = Users.reset s.users;
  config = Config.reset s.config;
}

-- A reset leaves nothing of the session before: whatever the nine stores held, they end in one and the
-- same state, which is the initial state but for the log store's `hasMore`, false in place of true.
pub reset_all_stores_lem :
    (s : Stores)
    → reset_all_stores s ≡ record init { logs = record (init.logs) { has_more = false } }
unfolding reset_all_stores init Config.reset
reset_all_stores_lem s = refl

-- A load of the figures that was in flight at the reset still writes: when its reply comes, the reset
-- stores hold the figures of the session before.
pub reset_then_reply :
    (s : Stores) (d : Dashboard.DashboardStats) (m : String) (now : ℕ)
    → (Dashboard.finish_fetch_stats
        (replied true (some d) m)
        now
        (reset_all_stores s).dashboard).stats
      ≡ some d
unfolding Dashboard.finish_fetch_stats
reset_then_reply s d m now = refl
