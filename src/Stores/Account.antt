-- ===== src/Stores/Account.antt =====
-- The small stores of the page frame: frontend/stores/user-state.ts, ui-state.ts, admin-store.ts and
-- realtime-store.ts.
pub mod Laws
use emailjachai.Common.{String, Bool, true, false, not, Option, none, some, List}
use emailjachai.Common.Text.{nullish, over}

pub data Role : Type 0 where
  admin reseller user : Role

pub record User : Type 0 where
  pub id : String
  pub email : String
  pub name : String
  pub role : Role
  pub avatar : Option String

pub record UserPatch : Type 0 where
  pub id : Option String
  pub email : Option String
  pub name : Option String
  pub role : Option Role
  pub avatar : Option String

pub record UserState : Type 0 where
  pub user : Option User
  pub is_authenticated : Bool

unfoldable pub init_user : UserState
init_user = record { user = none; is_authenticated = false }

unfoldable pub set_user : User → UserState → UserState
set_user u s = record { user = some u; is_authenticated = true }

unfoldable pub clear_user : UserState → UserState
clear_user s = record { user = none; is_authenticated = false }

abbrev pub patch_user : UserPatch → User → User
patch_user p u = record {
  id = nullish p.id u.id;
  email = nullish p.email u.email;
  name = nullish p.name u.name;
  role = nullish p.role u.role;
  avatar = over p.avatar u.avatar;
}

abbrev pub patch_some : UserPatch → Option User → Option User
patch_some p none = none
patch_some p (some u) = some (patch_user p u)

unfoldable pub update_user : UserPatch → UserState → UserState
update_user p s = record s { user = patch_some p s.user }

-- The store of the frame, with the cookie `sidebar_collapsed` that the server reads; `cookie` is
-- `none` where there is no document or no cookie yet, and `has_document` tells the two apart.
pub record UiState : Type 0 where
  pub is_sidebar_open : Bool
  pub is_sidebar_collapsed : Bool
  pub active_modal : Option String
  pub has_document : Bool
  pub cookie : Option Bool

abbrev pub write_cookie : Bool → UiState → UiState
write_cookie b s = record s { cookie = elim s.has_document [ true ↦ some b | false ↦ s.cookie ] }

unfoldable pub toggle_sidebar : UiState → UiState
toggle_sidebar s = record s { is_sidebar_open = not s.is_sidebar_open }

unfoldable pub toggle_sidebar_collapse : UiState → UiState
toggle_sidebar_collapse s =
    let next = not s.is_sidebar_collapsed in
    record (write_cookie next s) { is_sidebar_collapsed = next }

unfoldable pub set_sidebar_open : Bool → UiState → UiState
set_sidebar_open b s = record s { is_sidebar_open = b }

unfoldable pub set_active_modal : Option String → UiState → UiState
set_active_modal m s = record s { active_modal = m }

-- What is persisted, and what a rehydration from it gives.
unfoldable pub partialize : UiState → Bool
partialize s = s.is_sidebar_collapsed

unfoldable pub rehydrate : Bool → UiState → UiState
rehydrate stored s = write_cookie stored (record s { is_sidebar_collapsed = stored })

unfoldable pub init_ui : Bool → UiState
init_ui document = record {
  is_sidebar_open = false;
  is_sidebar_collapsed = false;
  active_modal = none;
  has_document = document;
  cookie = none;
}

-- The admin statistics are passed through; a card's texts stand for the whole payload.
pub record AdminStore : Type 0 where
  pub stats : Option (List (String × String))
  pub has_initialized : Bool

unfoldable pub init_admin : AdminStore
init_admin = record { stats = none; has_initialized = false }

unfoldable pub set_admin : List (String × String) → AdminStore → AdminStore
set_admin d s = record { stats = some d; has_initialized = true }

unfoldable pub reset_admin : AdminStore → AdminStore
reset_admin s = record { stats = none; has_initialized = false }

pub record RealtimeState : Type 0 where
  pub is_connected : Bool

unfoldable pub set_connected : Bool → RealtimeState → RealtimeState
set_connected b s = record { is_connected = b }
