-- ===== src/Stores/Security/Settings.antt =====
-- Saving a setting of the public verifier, and what a failed save leaves in the store.
use emailjachai.Common.{String, ◌≡◌, refl, Bool, true, false, Option, none, some, if◌then◌else◌}
use emailjachai.Stores.Security.{
  SecurityState, set_daily_limit, set_verification_enabled, begin_settings_update,
  finish_settings_update, toggle_verification, choose_daily_limit,
}
use emailjachai.Stores.Reply.{Reply, replied, rejected}

-- Whether the save succeeded.
abbrev pub is_saved : Reply (Unit {0}) → Bool
is_saved (replied success body m) = success
is_saved rejected = false

-- A failed save puts back the settings that it was given from before its own call, whatever happened
-- to the store meanwhile, leaves the other setting alone, and answers false; a successful save
-- changes nothing and answers true.
pub finish_settings_update_lem :
    (limit : Option String) (toggle : Option Bool) (s t : SecurityState) (r : Reply (Unit {0}))
    → finish_settings_update (begin_settings_update limit toggle s) r t ≡ (
        if is_saved r then (t, true) else (
          record t {
            daily_limit = elim limit [ none ↦ t.daily_limit | some l ↦ s.daily_limit ];
            is_verification_enabled = elim toggle [
              | none ↦ t.is_verification_enabled
              | some b ↦ s.is_verification_enabled
            ];
          },
          false,
        ))
unfolding finish_settings_update begin_settings_update
finish_settings_update_lem limit toggle s t (replied true body m) = refl
finish_settings_update_lem limit toggle s t (replied false body m) = refl
finish_settings_update_lem limit toggle s t rejected = refl

-- The controls of the panel set the store before they call the save, so the save remembers the new
-- value: after a failed save, with nothing else changed meanwhile, the store still holds the value
-- that the server refused, for the switch and for the menu.
pub failed_save_keeps_new_value :
    (val : Bool) (limit : String) (s : SecurityState) (r : Reply (Unit {0}))
    → is_saved r ≡ false
    → ((finish_settings_update (toggle_verification val s).1 r (toggle_verification val s).0).0
        ≡ set_verification_enabled val s)
      × ((finish_settings_update (choose_daily_limit limit s).1 r (choose_daily_limit limit s).0).0
          ≡ set_daily_limit limit s)
unfolding finish_settings_update toggle_verification choose_daily_limit
failed_save_keeps_new_value val limit s (replied true body m) h = (cc, cc)
failed_save_keeps_new_value val limit s (replied false body m) h = (refl, refl)
failed_save_keeps_new_value val limit s rejected h = (refl, refl)
