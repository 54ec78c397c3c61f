-- ===== src/Realtime/Balance.antt =====
-- The balance that a `user_update` message brings, in both stores that show it.
use emailjachai.Common.{
  ℕ, ◌+◌, String, ◌≡◌, ◌⊎◌, refl, ap, inl, inr, none, some, Option-cases, true,
}
use emailjachai.Amount.{format_number, parse_credits}
use emailjachai.Amount.Digits.{parse_credits-format_number}
use emailjachai.Stores.Credits.{set_balance, set_last_fetched}
use emailjachai.Stores.Dashboard.{DashboardStats, begin_fetch_stats, set_stats}
use emailjachai.Realtime.{Page, handle_credit_update, show_credits, handle_user_update}

show_credits-parse_credits :
    (n now : ℕ) (s : Page) (d : DashboardStats)
    → s.stores.dashboard.stats ≡ some d
    → (show_credits n now s).stores.dashboard.stats
      ≡ some (record d { credits_remaining = format_number n })
unfolding show_credits set_stats
show_credits-parse_credits n now s d e = rw (e, show_credits) refl

show_credits-none :
    (n now : ℕ) (s : Page)
    → s.stores.dashboard.stats ≡ none
    → ((show_credits n now s).stores.dashboard.stats ≡ none)
      × ((show_credits n now s).stores.dashboard.is_loading_stats ≡ true)
      × ((show_credits n now s).fetches ≡ s.fetches + 1)
unfolding show_credits begin_fetch_stats
show_credits-none n now s e = rw (e, show_credits) (e, refl, refl)

show_credits-balance :
    (n now : ℕ) (s : Page) → (show_credits n now s).stores.credits ≡ s.stores.credits
unfolding show_credits begin_fetch_stats
show_credits-balance n now s = elim (Option-cases s.stores.dashboard.stats) [
  | inl e ↦ rw (e, show_credits) refl
  | inr (d, e) ↦ rw (e, show_credits) refl
]

-- A message with a user's credits sets the balance to them. Where the figures are loaded, all but the
-- credits stay, and the credits they show are read back as that very balance; where they are not, a
-- load of them begins.
pub handle_user_update_lem :
    (n now : ℕ) (s : Page)
    → ((handle_user_update (some n) now s).stores.credits.balance ≡ n)
      × (((d : DashboardStats) × (shown : String) × (s.stores.dashboard.stats ≡ some d)
            × ((handle_user_update (some n) now s).stores.dashboard.stats
                ≡ some (record d { credits_remaining = shown }))
            × (parse_credits shown ≡ some n))
          ⊎ ((s.stores.dashboard.stats ≡ none)
              × ((handle_user_update (some n) now s).stores.dashboard.is_loading_stats ≡ true)
              × ((handle_user_update (some n) now s).fetches ≡ s.fetches + 1)))
unfolding handle_user_update handle_credit_update set_balance set_last_fetched
handle_user_update_lem n now s = (
  ap (λ c. c.balance) (show_credits-balance n now (handle_credit_update (some n) now s)),
  elim (Option-cases s.stores.dashboard.stats) [
    | inl e ↦
        let (a, b, f) = show_credits-none n now (handle_credit_update (some n) now s) e in
        inr (e, b, f)
    | inr (d, e) ↦ inl (
      d,
      format_number n,
      e,
      show_credits-parse_credits n now (handle_credit_update (some n) now s) d e,
      parse_credits-format_number n,
    )
  ],
)
