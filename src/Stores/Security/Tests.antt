-- ===== src/Stores/Security/Tests.antt =====
-- The security dashboard's theorems at a feed of one log.
use emailjachai.Common.{refl, ℕ, ◌≡◌, false, none, some, arith}
use emailjachai.Stores.Reply.{rejected}
use emailjachai.Stores.Security.{
  SecurityLog, BlockedEntry, init, set_daily_limit, set_verification_enabled,
  finish_settings_update, toggle_verification, choose_daily_limit,
}
use emailjachai.Stores.Security.Laws.{IsValid}
use emailjachai.Stores.Security.Settings.{failed_save_keeps_new_value}

abbrev log : ℕ → SecurityLog
log n = record {
  id = some n;
  created_at = none;
  ip = some "1.2.3.4";
  cookie_id = none;
  browser = none;
  email = none;
  status = some "blocked";
}

abbrev block : BlockedEntry
block = record {
  id = none;
  blocked_at = none;
  type = some "ip";
  value = some "1.2.3.4";
  reason = none;
}

init-IsValid : IsValid init
unfolding init
init-IsValid = record {
  few_logs = omega arith;
  few_blocked = omega arith;
  distinct_logs = tt;
  distinct_blocked = tt;
  counted = omega arith;
}

failed_save_keeps_new_value_example :
    ((finish_settings_update
        (toggle_verification false init).1
        rejected
        (toggle_verification false init).0).0
      ≡ set_verification_enabled false init)
    × ((finish_settings_update
          (choose_daily_limit "5" init).1
          rejected
          (choose_daily_limit "5" init).0).0
        ≡ set_daily_limit "5" init)
failed_save_keeps_new_value_example = failed_save_keeps_new_value false "5" init rejected refl
