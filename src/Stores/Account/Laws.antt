-- ===== src/Stores/Account/Laws.antt =====
-- A user is present exactly when the store says so, and the sidebar's cookie follows the store.
use emailjachai.Common.{String, ◌≡◌, refl, Bool, true, false, Option, none, some, List, [], ◌∷◌}
use emailjachai.Stores.Account.{
  User, UserPatch, UserState, UiState, init_user, set_user, clear_user, update_user, patch_some,
  toggle_sidebar, toggle_sidebar_collapse, set_sidebar_open, set_active_modal, partialize,
  rehydrate, init_ui,
}

abbrev pub present : Option User → Bool
present none = false
present (some u) = true

pub data UserAction : Type 0 where
  sign_in : User → UserAction
  sign_out : UserAction
  edit : UserPatch → UserAction

unfoldable pub user_step : UserAction → UserState → UserState
unfolding set_user clear_user update_user
user_step (sign_in u) s = set_user u s
user_step sign_out s = clear_user s
user_step (edit p) s = update_user p s

unfoldable pub user_run : List UserAction → UserState → UserState
user_run [] s = s
user_run (a ∷ rest) s = user_run rest (user_step a s)

present-patch_some : (p : UserPatch) (o : Option User) → present (patch_some p o) ≡ present o
present-patch_some p none = refl
present-patch_some p (some u) = refl

user_step-present :
    (a : UserAction) (s : UserState)
    → s.is_authenticated ≡ present s.user
    → (user_step a s).is_authenticated ≡ present (user_step a s).user
unfolding user_step
user_step-present (sign_in u) s h = refl
user_step-present sign_out s h = refl
user_step-present (edit p) s h = rw (present-patch_some p s.user) h

user_run_from :
    (xs : List UserAction) (s : UserState)
    → s.is_authenticated ≡ present s.user
    → (user_run xs s).is_authenticated ≡ present (user_run xs s).user
unfolding user_run
user_run_from [] s h = h
user_run_from (a ∷ xs) s h = user_run_from xs (user_step a s) (user_step-present a s h)

-- After any sign-ins, sign-outs and edits the store says authenticated exactly when it has a user.
pub is_authenticated-present :
    (xs : List UserAction)
    → (user_run xs init_user).is_authenticated ≡ present (user_run xs init_user).user
unfolding init_user
is_authenticated-present xs = user_run_from xs init_user refl

pub data UiAction : Type 0 where
  toggle collapse : UiAction
  open_sidebar : Bool → UiAction
  modal : Option String → UiAction

unfoldable pub ui_step : UiAction → UiState → UiState
unfolding toggle_sidebar toggle_sidebar_collapse set_sidebar_open set_active_modal
ui_step toggle s = toggle_sidebar s
ui_step collapse s = toggle_sidebar_collapse s
ui_step (open_sidebar b) s = set_sidebar_open b s
ui_step (modal m) s = set_active_modal m s

unfoldable pub ui_run : List UiAction → UiState → UiState
ui_run [] s = s
ui_run (a ∷ rest) s = ui_run rest (ui_step a s)

record IsSynced (s : UiState) : Type 0 where
  document : s.has_document ≡ true
  follows : s.cookie ≡ some s.is_sidebar_collapsed

ui_step-IsSynced : (a : UiAction) (s : UiState) → IsSynced s → IsSynced (ui_step a s)
unfolding ui_step
ui_step-IsSynced toggle s v = record { document = v.document; follows = v.follows }
ui_step-IsSynced collapse s v = record { document = v.document; follows = rw v.document refl }
ui_step-IsSynced (open_sidebar b) s v = record { document = v.document; follows = v.follows }
ui_step-IsSynced (modal m) s v = record { document = v.document; follows = v.follows }

ui_run-IsSynced : (xs : List UiAction) (s : UiState) → IsSynced s → IsSynced (ui_run xs s)
unfolding ui_run
ui_run-IsSynced [] s v = v
ui_run-IsSynced (a ∷ xs) s v = ui_run-IsSynced xs (ui_step a s) (ui_step-IsSynced a s v)

-- In a browser, once the store is rehydrated, the cookie that the server reads equals what the store
-- shows and what it persists, after any actions.
pub cookie-ui_run :
    (stored : Bool) (xs : List UiAction)
    → (ui_run xs (rehydrate stored (init_ui true))).cookie
      ≡ some (partialize (ui_run xs (rehydrate stored (init_ui true))))
unfolding rehydrate init_ui partialize
cookie-ui_run stored xs =
    (ui_run-IsSynced xs (rehydrate stored (init_ui true))
      (record { document = refl; follows = refl })).follows
