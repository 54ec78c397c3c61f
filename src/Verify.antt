-- ===== src/Verify.antt =====
-- The forms that spend credits, and the two stores they debit before the server answers.
pub mod Single
pub mod Upload
pub mod Laws
pub mod Files
mod Tests
use emailjachai.Common.{ℕ, ◌-◌, ◌+◌, Option, none, some, true, Bool}
use emailjachai.Amount.{format_number, parse_credits}
use emailjachai.Stores.Credits.{CreditState}
use emailjachai.Stores.Dashboard.{DashboardState, DashboardStats, set_stats, begin_fetch_stats}

-- The stores, and the number of loads of the figures that the forms began.
pub record Desk : Type 0 where
  pub dashboard : DashboardState
  pub credits : CreditState
  pub fetches : ℕ

abbrev pub with_stats : DashboardStats → ℕ → Desk → Desk
unfolding set_stats
with_stats d now s = record s { dashboard = set_stats d now s.dashboard }

-- `setStats({ ...stats, credits_remaining: formatNumber(Math.max(0, current - amount)) })`, where the
-- figures are loaded and show a number. The figures are those the form holds.
unfoldable pub debit_stats : Option DashboardStats → ℕ → ℕ → Desk → Desk
unfolding set_stats parse_credits format_number
debit_stats none amount now s = s
debit_stats (some d) amount now s = elim (parse_credits d.credits_remaining) [
  | none ↦ s
  | some current ↦
      with_stats (record d { credits_remaining = format_number (current - amount) }) now s
]

-- `void dash.fetchStats(true)`, up to its request.
unfoldable pub refetch : Desk → Desk
unfolding begin_fetch_stats
refetch s = elim (begin_fetch_stats true s.dashboard) [
  | none ↦ s
  | some loading ↦ record s { dashboard = loading; fetches = s.fetches + 1 }
]
