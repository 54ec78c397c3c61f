-- ===== src/Pages/UserList.antt =====
-- frontend/app/admin/users/users-client.tsx: the users of the admin panel, page by page.
use emailjachai.Common.{
  ℕ, zero, suc, ◌+◌, ◌%◌, ◌∙◌, ◌-◌, ◌*◌, ◌/◌, ◌≤◌, ◌<◌, String, ◌≡◌, ◌⊎◌, refl, inl, inr, Bool,
  true, false, ◌&&◌, Option, none, some, List, [], ◌∷◌, arith, if◌then◌else◌, str_eq, length, leb,
  any, ◌==◌,
}
use emailjachai.Common.Text.{codes, codes_eq, to_lower, trim, text_or, nullish, is_digit}
use emailjachai.Stores.Users.{ApiUser, UsersSummary, UsersStore, set_list}
use emailjachai.Stores.Reply.{Reply, replied, rejected}
use Prim.Native.Nat.{max}
use native.Mathlib.Omega.{div_fact, mod_fact}
use native.Mathlib.Nat.{mul-suc, mul_comm}

pub data Status : Type 0 where
  active suspended inactive : Status

unfoldable pub normalize_status : String → Status
normalize_status status =
    if codes_eq (to_lower status) (codes "suspended")
    then suspended
    else if codes_eq (to_lower status) (codes "inactive")
    then inactive
    else active

-- `User`; the date is the text that the browser writes for it.
pub record User : Type 0 where
  pub id : ℕ
  pub name : String
  pub email : String
  pub plan : String
  pub status : Status
  pub role : String
  pub credits : ℕ
  pub joined : String

unfoldable pub normalize_user : (String → String) → ApiUser → User
unfolding normalize_status
normalize_user to_date u = record {
  id = u.id;
  name = u.name;
  email = u.email;
  plan = text_or u.plan "Free";
  status = normalize_status u.status;
  role = text_or (some u.role) "user";
  credits = u.credits;
  joined = if str_eq u.created_at "" then "-" else to_date u.created_at;
}

abbrev pub has : (ℕ → Bool) → String → Bool
has p s = any p (codes s)

-- `/[A-Z]/` and `/[a-z]/`.
abbrev pub is_upper : ℕ → Bool
is_upper c = leb b'A' c && leb c b'Z'

abbrev pub is_lower : ℕ → Bool
is_lower c = leb b'a' c && leb c b'z'

-- The rules of `addUserSchema` for the password.
unfoldable pub is_password : String → Bool
is_password s = leb 8 (length (codes s)) && has is_upper s && has is_lower s && has is_digit s

abbrev pub roles : List String
roles = "admin" ∷ "manager" ∷ "reseller" ∷ "user" ∷ "demo" ∷ []

pub record AddUserValues : Type 0 where
  pub name : String
  pub email : String
  pub password : String
  pub role : String
  pub credits : ℕ

-- `addUserSchema`; what an address looks like is left to the library.
unfoldable pub accepts : (String → Bool) → AddUserValues → Bool
unfolding is_password
accepts is_email v =
    leb 2 (length (codes v.name))
    && is_email v.email
    && is_password v.password
    && any (str_eq v.role) roles

-- The parameters of a request for a page.
pub record Query : Type 0 where
  pub page : ℕ
  pub limit : ℕ
  pub q : Option String
  pub role : Option String

pub record UsersPage : Type 0 where
  pub store : UsersStore
  pub is_loading : Bool
  pub debounced_search : String
  pub role_filter : Option String
  pub current_page : ℕ

pub record UsersListResponse : Type 0 where
  pub users : Option (List ApiUser)
  pub total : Option ℕ
  pub page : Option ℕ
  pub limit : Option ℕ
  pub summary : Option UsersSummary

unfoldable pub begin_fetch : ℕ → UsersPage → Query
unfolding trim
begin_fetch page s = record {
  page = page;
  limit = 25;
  q = if str_eq (trim s.debounced_search) "" then none else some (trim s.debounced_search);
  role = if str_eq (text_or s.role_filter "") "" then none else s.role_filter;
}

-- `a || b` on numbers.
abbrev pub number_or : Option ℕ → ℕ → ℕ
number_or none d = d
number_or (some n) d = if n == 0 then d else n

unfoldable pub store_page : ℕ → UsersListResponse → UsersStore → UsersStore
unfolding set_list
store_page page d s =
    set_list (nullish d.users []) (nullish d.total 0) (number_or d.page page) (number_or d.limit 25)
      d.summary s

-- `fetchUsers` from the reply to a query on.
unfoldable pub finish_fetch : Query → Reply UsersListResponse → UsersPage → UsersPage
unfolding store_page
finish_fetch query (replied true (some d) m) s = record s {
  store = store_page query.page d s.store;
  current_page = number_or d.page query.page;
  is_loading = false;
}
finish_fetch query (replied true none m) s = record s { is_loading = false }
finish_fetch query (replied false body m) s = record s { is_loading = false }
finish_fetch query rejected s = record s { is_loading = false }

-- The effect that fills the store with what the server rendered.
unfoldable pub seed : UsersListResponse → UsersPage → UsersPage
unfolding store_page
seed d s = record s { store = store_page 1 d s.store }

-- A changed filter or search text, once it has settled: the first page is asked for.
unfoldable pub change_filter : Option String → String → UsersPage → Query × UsersPage
unfolding begin_fetch
change_filter role search s =
    let t = record s { role_filter = role; debounced_search = search } in (begin_fetch 1 t, t)

-- `Math.ceil((total || 0) / (limit || 25))`, and at least one.
unfoldable pub total_pages : UsersStore → ℕ
total_pages s = let limit = number_or (some s.limit) 25 in max 1 ((s.total + (limit - 1)) / limit)

ceiling_lem :
    (t k q r : ℕ)
    → suc k * q + r ≡ t + k
    → r < suc k
    → (t ≤ max 1 q * suc k) × (((max 1 q - 1) * suc k < t) ⊎ ((t ≡ 0) × (max 1 q ≡ 1)))
ceiling_lem t k zero r e h = (omega arith, inr (omega arith, omega arith))
ceiling_lem t k (suc j) r e h =
    let top : max 1 (suc j) ≡ suc j = omega arith in
    let parts = mul-suc (suc k) j in
    let swapped = mul_comm (suc k) j in
    let whole = mul_comm (suc k) (suc j) in
    let down : suc j - 1 ≡ j = omega arith in
    (rw top (omega arith), inl (rw (top, down) (omega arith)))

pages_lem :
    (t l : ℕ)
    → 0 < l
    → (t ≤ max 1 ((t + (l - 1)) / l) * l)
      × (((max 1 ((t + (l - 1)) / l) - 1) * l < t) ⊎ ((t ≡ 0) × (max 1 ((t + (l - 1)) / l) ≡ 1)))
pages_lem t zero h = absurd (omega arith)
pages_lem t (suc k) h =
    ceiling_lem t k ((t + (suc k - 1)) / suc k) ((t + (suc k - 1)) % suc k)
      (div_fact (t + (suc k - 1)) k ∙ (omega arith)) (mod_fact (t + (suc k - 1)) k)

-- The pages that are offered hold all users, and the last of them is not empty but where there are no
-- users at all: a page holds as many users as the limit says, or 25 where that is zero.
pub total_pages_lem :
    (s : UsersStore)
    → (s.total ≤ total_pages s * number_or (some s.limit) 25)
      × (((total_pages s - 1) * number_or (some s.limit) 25 < s.total)
          ⊎ ((s.total ≡ 0) × (total_pages s ≡ 1)))
unfolding total_pages
total_pages_lem s = pages_lem s.total (number_or (some s.limit) 25) (ground arith)

-- Two searches whose replies come in the other order: the page shows the users of the search that was
-- given up, under the filter and the text of the new one.
pub late_reply :
    (role : Option String) (search m : String) (old new : UsersListResponse) (first : Query)
    (s : UsersPage)
    → ((finish_fetch first (replied true (some old) m) (
          finish_fetch
            (change_filter role search s).0
            (replied true (some new) m)
            (change_filter role search s).1)).store.users
        ≡ nullish old.users [])
      × ((finish_fetch first (replied true (some old) m) (
            finish_fetch
              (change_filter role search s).0
              (replied true (some new) m)
              (change_filter role search s).1)).role_filter
          ≡ role)
      × ((finish_fetch first (replied true (some old) m) (
            finish_fetch
              (change_filter role search s).0
              (replied true (some new) m)
              (change_filter role search s).1)).debounced_search
          ≡ search)
unfolding finish_fetch change_filter
late_reply role search m old new first s = (refl, refl, refl)
