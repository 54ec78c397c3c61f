-- ===== src/Stores/Config.antt =====
-- frontend/stores/config-store.ts: packages and public settings, fetched once a session, with a
-- cooldown of a minute after each attempt. Times are milliseconds; `Date.now()` is an argument.
pub mod Flight
mod Tests
use emailjachai.Common.{
  ℕ, ◌-◌, String, Bool, true, false, not, ◌&&◌, ◌||◌, Option, none, some, List, [], ◌∷◌, str_eq,
  ltb, ◌==◌, if◌then◌else◌, filter,
}
use emailjachai.Stores.Reply.{Reply, replied, rejected}

-- The price texts and the features are passed through; `features` stands for a list or one text.
pub record Package : Type 0 where
  pub id : ℕ
  pub name : String
  pub tagline : String
  pub credits_amount : ℕ
  pub price : String
  pub offer_price : Option String
  pub features : List String
  pub popular : Bool
  pub status : String

-- `PublicSettings`: optional texts by their names.
abbrev pub PublicSettings : Type 0
PublicSettings = List (String × String)

pub record ConfigState : Type 0 where
  pub packages : Option (List Package)
  pub settings : Option PublicSettings
  pub is_loading_packages : Bool
  pub is_loading_settings : Bool
  pub packages_fetched_at : ℕ
  pub settings_fetched_at : ℕ

abbrev pub fetch_cooldown_ms : ℕ
fetch_cooldown_ms = 60000

unfoldable pub init : ConfigState
init = record {
  packages = none;
  settings = none;
  is_loading_packages = false;
  is_loading_settings = false;
  packages_fetched_at = 0;
  settings_fetched_at = 0;
}

-- `packages && packages.length > 0`.
abbrev pub has_packages : Option (List Package) → Bool
has_packages none = false
has_packages (some []) = false
has_packages (some (p ∷ ps)) = true

abbrev pub has_settings : Option PublicSettings → Bool
has_settings none = false
has_settings (some s) = true

-- `at && Date.now() - at < FETCH_COOLDOWN_MS`; a difference below zero is below the cooldown too.
abbrev pub cooling : ℕ → ℕ → Bool
cooling at now = not (at == 0) && ltb (now - at) fetch_cooldown_ms

-- `fetchPackages` up to its request; `none` where it returns at once.
unfoldable pub begin_fetch_packages : Bool → ℕ → ConfigState → Option ConfigState
begin_fetch_packages force now s =
    if s.is_loading_packages
      || (not force && (has_packages s.packages || cooling s.packages_fetched_at now))
    then none
    else some (record s { is_loading_packages = true })

unfoldable pub finish_fetch_packages : Reply (List Package) → ℕ → ConfigState → ConfigState
finish_fetch_packages (replied true (some ps) m) now s = record s {
  packages = some (filter (λ p. str_eq p.status "active") ps);
  packages_fetched_at = now;
  is_loading_packages = false;
}
finish_fetch_packages (replied true none m) now s = record s {
  packages_fetched_at = now;
  is_loading_packages = false;
}
finish_fetch_packages (replied false body m) now s = record s {
  packages_fetched_at = now;
  is_loading_packages = false;
}
finish_fetch_packages rejected now s = record s {
  packages_fetched_at = now;
  is_loading_packages = false;
}

unfoldable pub begin_fetch_settings : Bool → ℕ → ConfigState → Option ConfigState
begin_fetch_settings force now s =
    if s.is_loading_settings
      || (not force && (has_settings s.settings || cooling s.settings_fetched_at now))
    then none
    else some (record s { is_loading_settings = true })

unfoldable pub finish_fetch_settings : Reply PublicSettings → ℕ → ConfigState → ConfigState
finish_fetch_settings (replied true (some d) m) now s = record s {
  settings = some d;
  settings_fetched_at = now;
  is_loading_settings = false;
}
finish_fetch_settings (replied true none m) now s = record s {
  settings_fetched_at = now;
  is_loading_settings = false;
}
finish_fetch_settings (replied false body m) now s = record s {
  settings_fetched_at = now;
  is_loading_settings = false;
}
finish_fetch_settings rejected now s = record s {
  settings_fetched_at = now;
  is_loading_settings = false;
}

-- What `resetAllStores` writes into this store.
unfoldable pub reset : ConfigState → ConfigState
reset s = record s {
  packages_fetched_at = 0;
  settings_fetched_at = 0;
  packages = none;
  settings = none;
  is_loading_packages = false;
  is_loading_settings = false;
}

unfoldable pub set_packages : List Package → ℕ → ConfigState → ConfigState
set_packages ps now s = record s { packages = some ps; packages_fetched_at = now }

unfoldable pub set_settings : PublicSettings → ℕ → ConfigState → ConfigState
set_settings d now s = record s { settings = some d; settings_fetched_at = now }
