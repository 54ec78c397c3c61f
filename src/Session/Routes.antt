-- ===== src/Session/Routes.antt =====
-- frontend/app/next-api/auth: the routes that open, change and end a session.
use emailjachai.Common.{
  ℕ, ◌*◌, ◌≡◌, refl, ◌⊎◌, inl, inr, String, Bool, true, false, not, ◌||◌, Option, none, some,
  str_eq, ◌==◌, if◌then◌else◌,
}
use emailjachai.Common.Text.{◌&◌, text_or, nullish}
use emailjachai.Http.Headers.{Headers, empty, set}
use emailjachai.ClientIp.{apply_client_ip_headers}
use emailjachai.Session.{
  Jar, read, Jwt, Claims, role_of, Env, SessionUser, set_for, clear, truthy, authorize_user,
  verify_user, is_ok, status_or, Answer, failure, Request, Backend, unreachable, answered,
}

-- `auth/login`.
pub record Credentials : Type 0 where
  pub email : Option String
  pub password : Option String

pub record BackendUser : Type 0 where
  pub id : ℕ
  pub name : String
  pub email : String
  pub role : Option String

pub record Granted : Type 0 where
  pub user : Option BackendUser
  pub api_key : Option String

pub record LoggedIn : Type 0 where
  pub id : ℕ
  pub name : String
  pub email : String
  pub role : String

abbrev pub given : Option String → Bool
given o = elim (truthy o) [ none ↦ false | some s ↦ true ]

abbrev pub json_headers : Headers
json_headers = set "Content-Type" "application/json" empty

-- A step that answers at once, or sends a request.
pub data Plan (A B : Type 0) : Type 0 where
  refuse : Answer A → Plan A B
  send : Request B → Plan A B

pub Plan-cases :
    {A B : Type 0} (p : Plan A B)
    → ((a : Answer A) × (p ≡ refuse a)) ⊎ ((r : Request B) × (p ≡ send r))
Plan-cases (refuse a) = inl (a, refl)
Plan-cases (send r) = inr (r, refl)

-- `none` as a body is one that is no JSON.
unfoldable pub plan_login : Option Credentials → Headers → Plan LoggedIn Credentials
plan_login none source = refuse (failure 500 "Internal Server Error")
plan_login (some c) source =
    if not (given c.email) || not (given c.password)
    then refuse (failure 400 "Email and password are required")
    else send (record {
      path = "/auth/login";
      headers = apply_client_ip_headers json_headers source;
      body = c;
    })

abbrev pub session_user : BackendUser → SessionUser
session_user u = record { id = u.id; role = text_or u.role "user" }

unfoldable pub grant_login : Jwt → Env → Option Granted → Jar → Answer LoggedIn × Jar
grant_login jwt env none jar = (failure 500 "Internal Server Error", jar)
grant_login jwt env (some g) jar = elim g.user [
  | none ↦ (failure 500 "Internal Server Error", jar)
  | some u ↦ (
    record {
      status = 200;
      success = true;
      message = "Login successful";
      payload =
          some (record { id = u.id; name = u.name; email = u.email; role = text_or u.role "user" });
    },
    authorize_user jwt env (session_user u) g.api_key jar,
  )
]

unfoldable pub finish_login : Jwt → Env → Backend Granted → Jar → Answer LoggedIn × Jar
unfolding grant_login
finish_login jwt env unreachable jar = (failure 500 "Internal Server Error", jar)
finish_login jwt env (answered status is_error message body) jar =
    if is_error || not (is_ok status)
    then (failure (status_or status 401) (text_or message "Invalid credentials"), jar)
    else grant_login jwt env body jar

unfoldable pub login :
    Jwt
    → Env
    → (Request Credentials → Backend Granted)
    → Option Credentials
    → Headers
    → Jar
    → Answer LoggedIn × Jar
unfolding plan_login finish_login
login jwt env backend body source jar = elim (plan_login body source) [
  | refuse a ↦ (a, jar)
  | send r ↦ finish_login jwt env (backend r) jar
]

-- `auth/logout`; the answer says whether the browser is an admin again.
abbrev pub week_sec : ℕ
week_sec = 604800

abbrev pub restore_key : Env → Option String → Jar → Jar
restore_key env none jar = clear env "user_api_key" jar
restore_key env (some key) jar = set_for env "user_api_key" key week_sec jar

unfoldable pub return_to_admin : Env → String → Option String → Jar → Jar
return_to_admin env token key jar = clear env "admin_impersonator_api_key" (
    clear env "admin_impersonator_token"
      (restore_key env key (set_for env "auth_token" token week_sec jar)))

unfoldable pub clear_session : Env → Jar → Jar
clear_session env jar = clear env "admin_impersonator_api_key" (
    clear env "admin_impersonator_token"
      (clear env "user_api_key" (clear env "user_role" (clear env "auth_token" jar))))

unfoldable pub logout : Env → Jar → Bool × Jar
unfolding return_to_admin clear_session
logout env jar = elim (truthy (read env.now "admin_impersonator_token" jar)) [
  | some token ↦
      (true, return_to_admin env token (truthy (read env.now "admin_impersonator_api_key" jar)) jar)
  | none ↦ (false, clear_session env jar)
]

-- `auth/impersonate`. The body's `user_id` is `none` if it is missing.
abbrev pub is_admin : Option Claims → Bool
is_admin none = false
is_admin (some c) = str_eq (role_of c) "admin"

abbrev pub target_of : Option ℕ → Option ℕ
target_of none = none
target_of (some n) = if n == 0 then none else some n

abbrev pub bearer_headers : String → Headers
bearer_headers key =
    set "Content-Type" "application/json" (set "Authorization" ("Bearer " & key) empty)

abbrev pub ask_impersonation : Option String → ℕ → Headers → Plan (Unit {0}) ℕ
ask_impersonation none user_id source =
    refuse (failure 500 "Unable to resolve admin API key from session")
ask_impersonation (some key) user_id source = send (record {
  path = "/admin/impersonate";
  headers = apply_client_ip_headers (bearer_headers key) source;
  body = user_id;
})

abbrev pub name_target : Option (Option ℕ) → Option String → Headers → Plan (Unit {0}) ℕ
name_target none key source = refuse (failure 500 "Internal Server Error")
name_target (some user_id) key source = elim (target_of user_id) [
  | none ↦ refuse (failure 400 "Target user ID is required")
  | some n ↦ ask_impersonation key n source
]

unfoldable pub plan_impersonate : Jwt → Env → Option (Option ℕ) → Headers → Jar → Plan (Unit {0}) ℕ
plan_impersonate jwt env body source jar =
    if is_admin (verify_user jwt env none jar)
    then name_target body (truthy (read env.now "user_api_key" jar)) source
    else refuse (failure 403 "Unauthorized. Admin privileges required.")

abbrev pub impersonation_sec : ℕ
impersonation_sec = 20 * 60

-- A cookie that keeps a value of the admin, unless there is one already.
abbrev pub keep_for : Env → String → Option String → Option String → Jar → Jar
keep_for env name none existing jar = jar
keep_for env name (some v) none jar = set_for env name v impersonation_sec jar
keep_for env name (some v) (some w) jar = jar

unfoldable pub take_over : Jwt → Env → BackendUser → Option String → Jar → Jar
take_over jwt env u api_key jar =
    keep_for env "admin_impersonator_api_key" (truthy (read env.now "user_api_key" jar))
      (truthy (read env.now "admin_impersonator_api_key" jar))
      (keep_for env "admin_impersonator_token" (truthy (read env.now "auth_token" jar))
        (truthy (read env.now "admin_impersonator_token" jar))
        (set_for env "user_api_key" (nullish api_key "") impersonation_sec
          (authorize_user jwt env (session_user u) none jar)))

unfoldable pub grant_impersonation : Jwt → Env → Option Granted → Jar → Answer (Unit {0}) × Jar
grant_impersonation jwt env none jar = (failure 500 "Internal Server Error", jar)
grant_impersonation jwt env (some g) jar = elim g.user [
  | none ↦ (failure 500 "Internal Server Error", jar)
  | some u ↦ (
    record {
      status = 200;
      success = true;
      message = "Successfully logged in as " & u.name;
      payload = none;
    },
    take_over jwt env u g.api_key jar,
  )
]

unfoldable pub finish_impersonate : Jwt → Env → Backend Granted → Jar → Answer (Unit {0}) × Jar
unfolding grant_impersonation
finish_impersonate jwt env unreachable jar = (failure 500 "Internal Server Error", jar)
finish_impersonate jwt env (answered status is_error message body) jar =
    if is_error || not (is_ok status)
    then (failure (status_or status 500) (text_or message "Impersonation failed"), jar)
    else grant_impersonation jwt env body jar

unfoldable pub impersonate :
    Jwt
    → Env
    → (Request ℕ → Backend Granted)
    → Option (Option ℕ)
    → Headers
    → Jar
    → Answer (Unit {0}) × Jar
unfolding plan_impersonate finish_impersonate
impersonate jwt env backend body source jar = elim (plan_impersonate jwt env body source jar) [
  | refuse a ↦ (a, jar)
  | send r ↦ finish_impersonate jwt env (backend r) jar
]
