-- ===== src/Stores/Credits.antt =====
-- frontend/stores/credit-state.ts and the cached refresh of frontend/hooks/use-credits.ts. Amounts are
-- whole and not negative.
use Prim.Native.Nat.{max}
use emailjachai.Common.{
  ℕ, ◌+◌, ◌-◌, ◌*◌, ◌<◌, ◌≡◌, refl, Bool, true, false, not, ◌&&◌, ◌||◌, Option, none, some, arith,
  ltb, ◌==◌, if◌then◌else◌, ◌⊎◌, inl, inr,
}
use emailjachai.Stores.Reply.{Reply, replied, rejected}

pub record CreditState : Type 0 where
  pub balance : ℕ
  pub is_loading : Bool
  pub last_fetched : Option ℕ

unfoldable pub init : CreditState
init = record { balance = 0; is_loading = false; last_fetched = none }

unfoldable pub set_balance : ℕ → CreditState → CreditState
set_balance n s = record s { balance = n }

unfoldable pub add_credits : ℕ → CreditState → CreditState
add_credits n s = record s { balance = s.balance + n }

-- `Math.max(0, balance - amount)`.
unfoldable pub deduct_credits : ℕ → CreditState → CreditState
deduct_credits n s = record s { balance = s.balance - n }

unfoldable pub set_loading : Bool → CreditState → CreditState
set_loading b s = record s { is_loading = b }

unfoldable pub set_last_fetched : ℕ → CreditState → CreditState
set_last_fetched t s = record s { last_fetched = some t }

abbrev pub credits_cache_ttl : ℕ
credits_cache_ttl = 3 * 60 * 1000

-- `lastFetched && Date.now() - lastFetched < CREDITS_CACHE_TTL`.
abbrev pub is_fresh : Option ℕ → ℕ → Bool
is_fresh none now = false
is_fresh (some t) now = not (t == 0) && ltb (now - t) credits_cache_ttl

-- `refresh` up to its request; `none` where it returns at once. The state is the one that the hook
-- rendered with.
unfoldable pub begin_refresh : Bool → ℕ → CreditState → Option CreditState
unfolding set_loading
begin_refresh force now s =
    if (not force && is_fresh s.last_fetched now) || s.is_loading
    then none
    else some (set_loading true s)

unfoldable pub finish_refresh : Reply ℕ → ℕ → CreditState → CreditState
unfolding set_balance set_last_fetched set_loading
finish_refresh (replied true (some credits) m) now s =
    set_loading false (set_last_fetched now (set_balance credits s))
finish_refresh (replied true none m) now s = set_loading false s
finish_refresh (replied false body m) now s = set_loading false s
finish_refresh rejected now s = set_loading false s

-- Deducting what was added gives the old state back; adding what was deducted gives the old balance, or
-- the amount where that is larger, since a deduction stops at zero.
pub deduct-add_credits :
    (n : ℕ) (s : CreditState)
    → (deduct_credits n (add_credits n s) ≡ s)
      × ((add_credits n (deduct_credits n s)).balance ≡ max s.balance n)
unfolding deduct_credits add_credits
deduct-add_credits n s = (ground arith, omega arith)

-- The credits that a reply brings.
abbrev pub brought : Reply ℕ → Option ℕ
brought (replied true body m) = body
brought (replied false body m) = none
brought rejected = none

-- A refresh that brings credits sets the balance to them, and no unforced call goes out for three
-- minutes; one that brings none only ends the loading, so that a call goes out whenever it would have.
pub finish_refresh_lem :
    (r : Reply ℕ) (t now : ℕ) (s : CreditState)
    → 0 < t
    → now < t + credits_cache_ttl
    → ((credits : ℕ) × (brought r ≡ some credits)
        × ((finish_refresh r t s).balance ≡ credits)
        × (begin_refresh false now (finish_refresh r t s) ≡ none))
      ⊎ ((brought r ≡ none) × (finish_refresh r t s ≡ set_loading false s))
unfolding finish_refresh begin_refresh
finish_refresh_lem (replied true (some c) m) t now s h k = inl (c, refl, refl, ground arith)
finish_refresh_lem (replied true none m) t now s h k = inr (refl, refl)
finish_refresh_lem (replied false body m) t now s h k = inr (refl, refl)
finish_refresh_lem rejected t now s h k = inr (refl, refl)
