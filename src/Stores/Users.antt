-- ===== src/Stores/Users.antt =====
-- frontend/stores/users-store.ts: the page of users in the admin panel.
use emailjachai.Common.{
  ℕ, ◌-◌, ◌≡◌, sym, subst, Bool-cases, inl, inr, String, Bool, true, false, not, Option, none, some,
  List, [], ◌∷◌, arith, map, ◌==◌, if◌then◌else◌, length, find, filter,
}
use emailjachai.Common.Text.{nullish, over}
use emailjachai.Common.Keyed.{
  num_key, num_iff, IsDistinct, IsDistinct-map, IsDistinct-filter, Fresh-remove, find_of_Fresh,
  find-remove_ne,
}

-- `ApiUser` of frontend/app/admin/users/users-client.tsx.
pub record ApiUser : Type 0 where
  pub id : ℕ
  pub name : String
  pub email : String
  pub role : String
  pub status : String
  pub credits : ℕ
  pub created_at : String
  pub plan : Option String
  pub is_paid : Option Bool

pub record UserPatch : Type 0 where
  pub id : Option ℕ
  pub name : Option String
  pub email : Option String
  pub role : Option String
  pub status : Option String
  pub credits : Option ℕ
  pub created_at : Option String
  pub plan : Option String
  pub is_paid : Option Bool

pub record UsersSummary : Type 0 where
  pub total : ℕ
  pub inactive : ℕ
  pub suspended : ℕ
  pub paid : ℕ

abbrev pub empty_summary : UsersSummary
empty_summary = record { total = 0; inactive = 0; suspended = 0; paid = 0 }

pub record UsersStore : Type 0 where
  pub users : List ApiUser
  pub total : ℕ
  pub page : ℕ
  pub limit : ℕ
  pub summary : UsersSummary
  pub has_initialized : Bool

unfoldable pub init : UsersStore
init = record {
  users = [];
  total = 0;
  page = 1;
  limit = 25;
  summary = empty_summary;
  has_initialized = false;
}

unfoldable pub set_list : List ApiUser → ℕ → ℕ → ℕ → Option UsersSummary → UsersStore → UsersStore
set_list users total page limit summary s = record {
  users = users;
  total = total;
  page = page;
  limit = limit;
  summary = nullish summary empty_summary;
  has_initialized = true;
}

unfoldable pub set_users : List ApiUser → UsersStore → UsersStore
set_users users s = record s { users = users; has_initialized = true; total = length users }

unfoldable pub patch_user : UserPatch → ApiUser → ApiUser
patch_user p u = record {
  id = nullish p.id u.id;
  name = nullish p.name u.name;
  email = nullish p.email u.email;
  role = nullish p.role u.role;
  status = nullish p.status u.status;
  credits = nullish p.credits u.credits;
  created_at = nullish p.created_at u.created_at;
  plan = over p.plan u.plan;
  is_paid = over p.is_paid u.is_paid;
}

unfoldable pub update_user : ℕ → UserPatch → UsersStore → UsersStore
unfolding patch_user
update_user user_id p s = record s {
  users = map (λ u. if u.id == user_id then patch_user p u else u) s.users;
}

unfoldable pub remove_user : ℕ → UsersStore → UsersStore
remove_user user_id s = record s {
  users = filter (λ u. not (u.id == user_id)) s.users;
  total = s.total - 1;
}

unfoldable pub reset : UsersStore → UsersStore
reset s = record {
  users = [];
  total = 0;
  page = 1;
  limit = 25;
  summary = empty_summary;
  has_initialized = false;
}

abbrev pub user_key : ApiUser → ℕ
user_key u = u.id

abbrev patched : ℕ → UserPatch → ApiUser → ApiUser
patched user_id p u = if u.id == user_id then patch_user p u else u

patched-id :
    (user_id : ℕ) (p : UserPatch)
    → p.id ≡ none
    → (u : ApiUser) → user_key (patched user_id p u) ≡ user_key u
unfolding patch_user
patched-id user_id p h u = ground arith

-- The user under an id, patched.
abbrev pub patched_option : UserPatch → Option ApiUser → Option ApiUser
patched_option p none = none
patched_option p (some u) = some (patch_user p u)

find-map-patched :
    (user_id k : ℕ) (p : UserPatch) (us : List ApiUser)
    → p.id ≡ none
    → find (λ u. u.id == k) (map (patched user_id p) us) ≡ (
        if k == user_id
        then patched_option p (find (λ u. u.id == k) us)
        else find (λ u. u.id == k) us)
unfolding patch_user
find-map-patched user_id k p [] h = ground arith
find-map-patched user_id k p (u ∷ us) h = ground (
  arith,
  find-map-patched user_id k p us h,
  num_iff u.id user_id,
  num_iff u.id k,
  num_iff k user_id,
)

-- A patch that carries no id of its own keeps the ids distinct, patches the user that it names and
-- leaves every other; a removal keeps them distinct, drops the user that it names and keeps every other.
pub users_updates :
    (user_id k : ℕ) (p : UserPatch) (s : UsersStore)
    → p.id ≡ none
    → IsDistinct user_key s.users
    → IsDistinct user_key (update_user user_id p s).users
      × (find (λ u. u.id == k) (update_user user_id p s).users ≡ (
          if k == user_id
          then patched_option p (find (λ u. u.id == k) s.users)
          else find (λ u. u.id == k) s.users))
      × IsDistinct user_key (remove_user user_id s).users
      × (find (λ u. u.id == k) (remove_user user_id s).users
          ≡ (if k == user_id then none else find (λ u. u.id == k) s.users))
unfolding update_user remove_user
users_updates user_id k p s h d = (
  IsDistinct-map user_key (patched user_id p) (patched-id user_id p h) s.users d,
  find-map-patched user_id k p s.users h,
  IsDistinct-filter user_key _ s.users d,
  elim (Bool-cases (k == user_id)) [
    | inl same ↦ rw same (
        subst (λ i. find (λ u. u.id == i) (remove_user user_id s).users ≡ none)
          (sym ((num_iff k user_id).0 same))
          (find_of_Fresh user_key user_id _ (Fresh-remove user_key user_id s.users)))
    | inr other ↦ rw other (
        find-remove_ne user_key user_id k s.users
          (ground (arith, num_iff k user_id, num_iff user_id k)))
  ],
)
