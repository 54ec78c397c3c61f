-- ===== src/Realtime/Laws.antt =====
-- What the stores keep while messages arrive.
use emailjachai.Common.{
  ℕ, ◌≤◌, String, ◌≡◌, refl, sym, subst, Bool, true, false, Option, none, some, List, [], ◌∷◌,
  length, Option-cases, inl, inr, if◌then◌else◌,
}
use emailjachai.Common.Keyed.{text_key, IsDistinct}
use emailjachai.Stores.Dashboard.{begin_fetch_stats, set_stats}
use emailjachai.Stores.Dashboard.Laws as Dashboard
use emailjachai.Stores.Jobs.Laws as Jobs
use emailjachai.Stores.Logs.Laws as Logs
use emailjachai.Stores.Security.Laws as Security
use emailjachai.Stores.Servers.{set_servers}
use emailjachai.Stores.Reset.{Stores}
use emailjachai.Realtime.LogFields.{Clock, format_log}
use emailjachai.Realtime.{
  Casts, Hook, shell, dashboard, jobs, logs, security, servers, admin, monitoring, Page, listen,
  dispatch, on_message, handle_user_update, handle_credit_update, show_credits, on_text, on_stats,
  on_recent_job, on_job, on_log, on_security_log, on_blocked, on_servers, on_heartbeat,
  on_admin_stats, on_metrics, with_stores,
}

-- The invariants of the four stores that messages fill.
pub record IsValid (s : Stores) : Type 0 where
  pub dashboard : Dashboard.IsValid s.dashboard
  pub jobs : IsDistinct Jobs.job_key s.jobs.jobs
  pub logs : Logs.IsValid s.logs
  pub security : Security.IsValid s.security

-- A state of the page whose stores are valid.
abbrev IsValidPage : Page → Type 0
IsValidPage s = IsValid s.stores

if-IsValid :
    (b : Bool) (s t : Page) → IsValidPage s → IsValidPage t → IsValidPage (if b then s else t)
if-IsValid true s t v w = v
if-IsValid false s t v w = w

option-IsValid :
    {A : Type 0} (o : Option A) (f : A → Page) (s : Page)
    → IsValidPage s
    → ((a : A) → IsValidPage (f a))
    → IsValidPage (elim o [ none ↦ s | some a ↦ f a ])
option-IsValid none f s v w = v
option-IsValid (some a) f s v w = w a

-- What changes neither the four stores' lists nor their counts keeps them valid.
same-IsValid :
    (s t : Stores)
    → IsValid s
    → t.dashboard.recent_jobs ≡ s.dashboard.recent_jobs
    → t.jobs ≡ s.jobs
    → t.logs ≡ s.logs
    → t.security ≡ s.security
    → IsValid t
same-IsValid s t v a b c d = record {
  dashboard = record {
    few = subst (λ xs. length xs ≤ 4) (sym a) v.dashboard.few;
    distinct = subst (IsDistinct Dashboard.job_key) (sym a) v.dashboard.distinct;
  };
  jobs = subst (λ x. IsDistinct Jobs.job_key x.jobs) (sym b) v.jobs;
  logs = subst Logs.IsValid (sym c) v.logs;
  security = subst Security.IsValid (sym d) v.security;
}

show_credits-IsValid : (n now : ℕ) (s : Page) → IsValidPage s → IsValidPage (show_credits n now s)
unfolding show_credits begin_fetch_stats set_stats
show_credits-IsValid n now s v = elim (Option-cases s.stores.dashboard.stats) [
  | inl e ↦ rw (e, show_credits) (same-IsValid s.stores _ v refl refl refl refl)
  | inr (d, e) ↦ rw (e, show_credits) (same-IsValid s.stores _ v refl refl refl refl)
]

handle_user_update-IsValid :
    (credits : Option ℕ) (now : ℕ) (s : Page)
    → IsValidPage s
    → IsValidPage (handle_user_update credits now s)
unfolding handle_user_update handle_credit_update
handle_user_update-IsValid none now s v = v
handle_user_update-IsValid (some n) now s v =
    show_credits-IsValid n now (handle_credit_update (some n) now s)
      (same-IsValid s.stores _ v refl refl refl refl)

handle_credit_update-IsValid :
    (credits : Option ℕ) (now : ℕ) (s : Page)
    → IsValidPage s
    → IsValidPage (handle_credit_update credits now s)
unfolding handle_credit_update
handle_credit_update-IsValid none now s v = v
handle_credit_update-IsValid (some n) now s v = same-IsValid s.stores _ v refl refl refl refl

module _ {Json : Type 0} (casts : Casts Json) where
  on_stats-IsValid :
      (d : Json) (c : Clock) (s : Page) → IsValidPage s → IsValidPage (on_stats casts d c s)
  unfolding on_stats set_stats
  on_stats-IsValid d c s v = same-IsValid s.stores _ v refl refl refl refl

  on_recent_job-IsValid :
      (d : Json) (s : Page) → IsValidPage s → IsValidPage (on_recent_job casts d s)
  unfolding on_recent_job
  on_recent_job-IsValid d s v = record {
    dashboard = Dashboard.handle_job_update-IsValid (casts.ws_job d) _ v.dashboard;
    jobs = v.jobs;
    logs = v.logs;
    security = v.security;
  }

  on_job-IsValid : (d : Json) (s : Page) → IsValidPage s → IsValidPage (on_job casts d s)
  unfolding on_job
  on_job-IsValid d s v = record {
    dashboard = v.dashboard;
    jobs = Jobs.update_job-IsDistinct (casts.job d) _ v.jobs;
    logs = v.logs;
    security = v.security;
  }

  on_log-IsValid :
      (d : Json) (c : Clock) (s : Page) → IsValidPage s → IsValidPage (on_log casts d c s)
  unfolding on_log
  on_log-IsValid d c s v = record {
    dashboard = v.dashboard;
    jobs = v.jobs;
    logs = Logs.add_live_log-IsValid (format_log c (casts.ws_log d)) _ v.logs;
    security = v.security;
  }

  on_security_log-IsValid :
      (d : Json) (s : Page) → IsValidPage s → IsValidPage (on_security_log casts d s)
  unfolding on_security_log
  on_security_log-IsValid d s v = record {
    dashboard = v.dashboard;
    jobs = v.jobs;
    logs = v.logs;
    security = Security.add_log-IsValid (casts.security_log d) _ v.security;
  }

  on_blocked-IsValid : (d : Json) (s : Page) → IsValidPage s → IsValidPage (on_blocked casts d s)
  unfolding on_blocked
  on_blocked-IsValid d s v = record {
    dashboard = v.dashboard;
    jobs = v.jobs;
    logs = v.logs;
    security = Security.add_blocked-IsValid (casts.blocked d) _ v.security;
  }

  on_servers-IsValid : (d : Json) (s : Page) → IsValidPage s → IsValidPage (on_servers casts d s)
  unfolding on_servers
  on_servers-IsValid d s v =
      option-IsValid (casts.servers d)
        (λ xs. with_stores (record (s.stores) { servers = set_servers xs s.stores.servers }) s) s v
        (λ xs. same-IsValid s.stores _ v refl refl refl refl)

  on_heartbeat-IsValid :
      (d : Json) (s : Page) → IsValidPage s → IsValidPage (on_heartbeat casts d s)
  unfolding on_heartbeat
  on_heartbeat-IsValid d s v = same-IsValid s.stores _ v refl refl refl refl

  on_admin_stats-IsValid :
      (d : Json) (s : Page) → IsValidPage s → IsValidPage (on_admin_stats casts d s)
  unfolding on_admin_stats
  on_admin_stats-IsValid d s v = same-IsValid s.stores _ v refl refl refl refl

  on_metrics-IsValid :
      (d : Json) (c : Clock) (s : Page) → IsValidPage s → IsValidPage (on_metrics casts d c s)
  unfolding on_metrics
  on_metrics-IsValid d c s v = v

  -- Two tests in turn.
  two-IsValid :
      (a b : Bool) (s t u : Page)
      → IsValidPage s
      → IsValidPage t
      → IsValidPage u
      → IsValidPage (if a then s else if b then t else u)
  two-IsValid a b s t u v w x = if-IsValid a s (if b then t else u) v (if-IsValid b t u w x)

  listen-IsValid :
      (h : Hook) (type : String) (d : Json) (c : Clock) (s : Page)
      → IsValidPage s
      → IsValidPage (listen casts h type d c s)
  unfolding listen
  listen-IsValid shell type d c s v =
      two-IsValid _ _ (handle_credit_update (casts.balance d) c.now s)
        (handle_user_update (casts.credits d) c.now s) s
        (handle_credit_update-IsValid (casts.balance d) c.now s v)
        (handle_user_update-IsValid (casts.credits d) c.now s v) v
  listen-IsValid dashboard type d c s v =
      two-IsValid _ _ (on_stats casts d c s) (on_recent_job casts d s) s (on_stats-IsValid d c s v)
        (on_recent_job-IsValid d s v) v
  listen-IsValid jobs type d c s v =
      two-IsValid _ _ (on_job casts d s) (on_stats casts d c s) s (on_job-IsValid d s v)
        (on_stats-IsValid d c s v) v
  listen-IsValid logs type d c s v = if-IsValid _ (on_log casts d c s) s (on_log-IsValid d c s v) v
  listen-IsValid security type d c s v =
      two-IsValid _ _ (on_security_log casts d s) (on_blocked casts d s) s
        (on_security_log-IsValid d s v) (on_blocked-IsValid d s v) v
  listen-IsValid servers type d c s v =
      two-IsValid _ _ (on_servers casts d s) (on_heartbeat casts d s) s (on_servers-IsValid d s v)
        (on_heartbeat-IsValid d s v) v
  listen-IsValid admin type d c s v =
      if-IsValid _ (on_admin_stats casts d s) s (on_admin_stats-IsValid d s v) v
  listen-IsValid monitoring type d c s v =
      if-IsValid _ (on_metrics casts d c s) s (on_metrics-IsValid d c s v) v

  dispatch-IsValid :
      (hs : List Hook) (type : String) (d : Json) (c : Clock) (s : Page)
      → IsValidPage s
      → IsValidPage (dispatch casts hs type d c s)
  unfolding dispatch
  dispatch-IsValid [] type d c s v = v
  dispatch-IsValid (h ∷ hs) type d c s v =
      dispatch-IsValid hs type d c _ (listen-IsValid h type d c s v)

  module _ (parse : String → Option (String × Json)) where
    on_message-IsValid :
        (hs : List Hook) (frame : Option String) (c : Clock) (s : Page)
        → IsValidPage s
        → IsValidPage (on_message casts parse hs frame c s)
    unfolding on_message
    on_message-IsValid hs none c s v = v
    on_message-IsValid hs (some frame) c s v = if-IsValid _ s (on_text casts parse hs frame c s) v (
        option-IsValid (parse frame) (λ m. dispatch casts hs m.0 m.1 c s) s v
          (λ m. dispatch-IsValid hs m.0 m.1 c s v))

    -- Frames as they arrive, each while some hooks are mounted.
    unfoldable pub receive_all : List (List Hook × Option String × Clock) → Page → Page
    receive_all [] s = s
    receive_all ((hooks, frame, c) ∷ rest) s =
        receive_all rest (on_message casts parse hooks frame c s)

    -- Whatever frames arrive, in any order and with any hooks mounted, and whatever they hold, the
    -- stores that were valid stay valid: at most four recent jobs, each once; each job of the table
    -- once; at most 500 logs and fifty entries of each security feed, each key once; and no more
    -- frauds than verifications.
    pub receive_all-IsValid :
        (xs : List (List Hook × Option String × Clock)) (s : Page)
        → IsValid s.stores
        → IsValid (receive_all xs s).stores
    unfolding receive_all
    receive_all-IsValid [] s v = v
    receive_all-IsValid ((hs, frame, c) ∷ xs) s v =
        receive_all-IsValid xs _ (on_message-IsValid hs frame c s v)
