-- ===== src/Session/Gates.antt =====
-- The routes that a session opens one at a time, frontend/app/next-api/auth/me/route.ts and
-- frontend/app/next-api/jobs/submit-file/route.ts, and the open one, auth/register/route.ts.
use emailjachai.Common.{
  ℕ, String, Bool, true, not, ◌&&◌, ◌||◌, Option, none, some, str_eq, if◌then◌else◌,
}
use emailjachai.Common.Text.{◌&◌, show_num, text_or, to_lower, codes, codes_eq}
use emailjachai.Http.Headers.{Headers, empty, get, set}
use emailjachai.ClientIp.{apply_client_ip_headers}
use emailjachai.Session.{
  Claims, Jwt, Env, Jar, read, truthy, verify_user, is_ok, status_or, Answer, failure, Request,
  Backend, unreachable, answered,
}
use emailjachai.Session.Routes.{Plan, refuse, send, json_headers, given}

-- `auth/me`; the profile is passed through.
pub record Me (A : Type 0) : Type 0 where
  pub user : Option A
  pub is_impersonating : Bool

abbrev pub me_headers : String → Headers
me_headers key = set "Accept" "application/json" (set "Authorization" ("Bearer " & key) empty)

abbrev pub ask_me : {A : Type 0} → Option Claims → Option String → Plan (Me A) (Unit {0})
ask_me none key = refuse (failure 401 "Not authenticated")
ask_me (some c) none = refuse (failure 500 "Unable to resolve API Key from session")
ask_me (some c) (some key) =
    send (record { path = "/auth/me"; headers = me_headers key; body = tt })

unfoldable pub plan_me : {A : Type 0} → Jwt → Env → Jar → Plan (Me A) (Unit {0})
plan_me jwt env jar =
    ask_me (verify_user jwt env none jar) (truthy (read env.now "user_api_key" jar))

-- `unreachable` stands for an exception, whose message the answer carries.
unfoldable pub finish_me : {A : Type 0} → String → Env → Backend A → Jar → Answer (Me A)
finish_me thrown env unreachable jar = failure 500 thrown
finish_me thrown env (answered status is_error message body) jar =
    if is_error || not (is_ok status)
    then failure (status_or status 401) (text_or message "Failed to fetch profile")
    else record {
      status = 200;
      success = true;
      message = "";
      payload = some (record {
        user = body;
        is_impersonating = given (read env.now "admin_impersonator_token" jar);
      });
    }

unfoldable pub me :
    {A : Type 0} → Jwt → Env → String → (Request (Unit {0}) → Backend A) → Jar → Answer (Me A)
me jwt env thrown backend jar = elim (plan_me jwt env jar) [
  | refuse a ↦ a
  | send r ↦ finish_me thrown env (backend r) jar
]

-- `jobs/submit-file`: the incoming body is passed on as a stream.
abbrev pub upload_type : Option String → Headers → Headers
upload_type none h = h
upload_type (some t) h = if str_eq t "" then h else set "Content-Type" t h

unfoldable pub upload_headers : ℕ → String → Headers → Headers
upload_headers received key source =
    apply_client_ip_headers
      (set "X-Request-ID" (text_or (get "x-request-id" source) ("upload_" & show_num received))
        (set "Authorization" ("Bearer " & key) (upload_type (get "content-type" source) empty)))
      source

abbrev pub ask_upload :
    {A : Type 0} → ℕ → Headers → Option Claims → Option String → Plan A (Unit {0})
ask_upload received source none key = refuse (failure 401 "Unauthorized proxy access")
ask_upload received source (some c) none = refuse (failure 401 "API Key not found in session")
ask_upload received source (some c) (some key) =
    send (record {
      path = "/jobs/submit-file";
      headers = upload_headers received key source;
      body = tt;
    })

unfoldable pub plan_upload : {A : Type 0} → Jwt → Env → ℕ → Headers → Jar → Plan A (Unit {0})
plan_upload jwt env received source jar =
    ask_upload received source (verify_user jwt env none jar)
      (truthy (read env.now "user_api_key" jar))

-- `auth/register`: every text field of the form, if it is there.
pub record Form : Type 0 where
  pub first_name : Option String
  pub last_name : Option String
  pub email : Option String
  pub password : Option String

pub record Registered : Type 0 where
  pub user_id : Option ℕ
  pub email : String
  pub requires_verification : Bool

pub record NewUser : Type 0 where
  pub id : Option ℕ
  pub status : Option String
  pub email : Option String

unfoldable pub is_complete : Form → Bool
is_complete f = given f.first_name && given f.last_name && given f.email && given f.password

unfoldable pub plan_register : Option Form → Headers → Plan Registered Form
unfolding is_complete
plan_register none source = refuse (failure 500 "Internal Server Error")
plan_register (some f) source =
    if not (is_complete f)
    then refuse (failure 400 "All fields are required")
    else send (record {
      path = "/auth/register";
      headers = apply_client_ip_headers json_headers source;
      body = f;
    })

abbrev pub new_status : Option NewUser → String
new_status none = ""
new_status (some u) = text_or u.status ""

abbrev pub requires_verification_of : Option NewUser → Bool
requires_verification_of u = codes_eq (to_lower (new_status u)) (codes "inactive")

abbrev pub new_email : Option NewUser → Option String
new_email none = none
new_email (some u) = u.email

abbrev pub new_id : Option NewUser → Option ℕ
new_id none = none
new_id (some u) = u.id

-- The backend's data are its `user`; without one the code reads undefined.
unfoldable pub finish_register : Form → Backend NewUser → Answer Registered
finish_register f unreachable = failure 500 "Internal Server Error"
finish_register f (answered status is_error message body) =
    if is_error || not (is_ok status)
    then failure (status_or status 500) (text_or message "Registration failed")
    else record {
      status = 201;
      success = true;
      message =
          if requires_verification_of body
          then "Account created. Please verify your email."
          else "User registered successfully";
      payload = some (record {
        user_id = new_id body;
        email = text_or (new_email body) (text_or f.email "");
        requires_verification = requires_verification_of body;
      });
    }
