-- ===== src/Session.antt =====
-- frontend/lib/auth.ts, and the cookies and replies that the session routes share
-- (frontend/app/next-api/auth). Times are seconds.
pub mod Token
pub mod Routes
pub mod Reading
pub mod Impersonation
pub mod Return
pub mod Sockets
pub mod Gates
pub mod Private
pub mod Login
mod Tests
use emailjachai.Common.{
  ℕ, ◌+◌, ◌*◌, ◌<◌, ◌≤◌, ◌≡◌, ◌≢◌, refl, String, Bool, true, false, not, ◌&&◌, Option, none, some,
  List, [], ◌∷◌, arith, eq_iff, str_eq, ltb, leb, ◌==◌, if◌then◌else◌,
}
use emailjachai.Common.Text.{over}
use emailjachai.Http.Headers.{Headers}

pub record Cookie : Type 0 where
  pub value : String
  pub http_only : Bool
  pub secure : Bool
  pub same_site : String
  -- The moment from which the browser sends the cookie no more: `maxAge` from now, or `expires`.
  pub expires : ℕ
  pub path : String

abbrev pub Jar : Type 0
Jar = List (String × Cookie)

unfoldable pub find_cookie : String → Jar → Option Cookie
find_cookie name [] = none
find_cookie name ((n, c) ∷ rest) = if str_eq n name then some c else find_cookie name rest

unfoldable pub set_cookie : String → Cookie → Jar → Jar
set_cookie name c [] = (name, c) ∷ []
set_cookie name c ((n, d) ∷ rest) =
    if str_eq n name then (name, c) ∷ rest else (n, d) ∷ set_cookie name c rest

-- The value of a cookie that has not expired: `cookieStore.get(name)?.value`.
abbrev pub live_value : ℕ → Option Cookie → Option String
live_value now none = none
live_value now (some c) = if ltb now c.expires then some c.value else none

unfoldable pub read : ℕ → String → Jar → Option String
read now name jar = live_value now (find_cookie name jar)

pub find-set_cookie :
    (n m : String) (c : Cookie) (jar : Jar)
    → find_cookie m (set_cookie n c jar) ≡ (if str_eq n m then some c else find_cookie m jar)
unfolding find_cookie set_cookie
find-set_cookie n m c [] = refl
find-set_cookie n m c ((k, d) ∷ jar) =
    ground (arith, eq_iff n m, eq_iff k n, eq_iff k m, find-set_cookie n m c jar)

-- What a token says: `userId` and `role`, or, in a token for the socket, `userID` (left out where it is
-- undefined), `role` and `purpose: 'websocket'`.
pub data Claims : Type 0 where
  session : (id : ℕ) (role : String) → Claims
  websocket : (id : Option ℕ) (role : String) → Claims

-- `payload.role` and `payload.userId`, whichever token it is.
abbrev pub role_of : Claims → String
role_of (session id role) = role
role_of (websocket id role) = role

abbrev pub user_id_of : Claims → Option ℕ
user_id_of (session id role) = some id
user_id_of (websocket id role) = none

-- The library `jose` under the server's secret: a signed token is verified, with what was signed, until
-- its lifetime is over.
pub record Jwt : Type 0 where
  pub sign : Claims → (issued lifetime : ℕ) → String
  pub verify : (now : ℕ) → String → Option Claims
  pub sign-ne-empty : (c : Claims) (issued lifetime : ℕ) → sign c issued lifetime ≢ ""
  pub verify-sign :
      (c : Claims) (issued lifetime now : ℕ)
      → now < issued + lifetime
      → verify now (sign c issued lifetime) ≡ some c
  pub verify-sign_expired :
      (c : Claims) (issued lifetime now : ℕ)
      → issued + lifetime ≤ now
      → verify now (sign c issued lifetime) ≡ none

-- The moment of a request, and whether NODE_ENV is production.
pub record Env : Type 0 where
  pub now : ℕ
  pub is_prod : Bool

abbrev pub session_max_age_sec : ℕ
session_max_age_sec = 60 * 60 * 24

-- `cookieStore.set(name, value, { httpOnly, secure, sameSite: 'lax', maxAge, path: '/' })`.
unfoldable pub set_for : Env → String → String → ℕ → Jar → Jar
unfolding set_cookie
set_for env name value max_age = set_cookie name (record {
  value = value;
  http_only = true;
  secure = env.is_prod;
  same_site = "lax";
  expires = env.now + max_age;
  path = "/";
})

-- The same with an empty value and `expires: new Date(0)`.
unfoldable pub clear : Env → String → Jar → Jar
unfolding set_cookie
clear env name = set_cookie name (record {
  value = "";
  http_only = true;
  secure = env.is_prod;
  same_site = "lax";
  expires = 0;
  path = "/";
})

-- A text that is there and not empty.
abbrev pub truthy : Option String → Option String
truthy none = none
truthy (some s) = if str_eq s "" then none else some s

pub record SessionUser : Type 0 where
  pub id : ℕ
  pub role : String

abbrev pub set_key_for : Env → Option String → Jar → Jar
set_key_for env none jar = jar
set_key_for env (some key) jar = set_for env "user_api_key" key session_max_age_sec jar

unfoldable pub authorize_user : Jwt → Env → SessionUser → Option String → Jar → Jar
authorize_user jwt env u api_key jar = set_key_for env (truthy api_key) (
    set_for env "auth_token" (jwt.sign (session u.id u.role) env.now session_max_age_sec)
      session_max_age_sec jar)

-- `verifyUser(providedToken)`, where the cookie store can be read.
unfoldable pub verify_user : Jwt → Env → Option String → Jar → Option Claims
verify_user jwt env provided jar =
    elim (over (truthy provided) (truthy (read env.now "auth_token" jar))) [
      | none ↦ none
      | some t ↦ jwt.verify env.now t
    ]

-- `response.ok`.
abbrev pub is_ok : ℕ → Bool
is_ok status = leb 200 status && leb status 299

-- `response.status || d`.
abbrev pub status_or : ℕ → ℕ → ℕ
status_or status d = if status == 0 then d else status

-- What a route answers: the status, whether the body says success, its message, and its data.
pub record Answer (A : Type 0) : Type 0 where
  pub status : ℕ
  pub success : Bool
  pub message : String
  pub payload : Option A

abbrev pub failure : {A : Type 0} → ℕ → String → Answer A
failure status message = record {
  status = status;
  success = false;
  message = message;
  payload = none;
}

-- A request to the backend: its path and headers, and the caller's data.
pub record Request (A : Type 0) : Type 0 where
  pub path : String
  pub headers : Headers
  pub body : A

-- The backend's answer with a JSON body, or a failure of `fetch` or `json`.
pub data Backend (A : Type 0) : Type 0 where
  unreachable : Backend A
  answered : (status : ℕ) (is_error : Bool) (message : Option String) (body : Option A) → Backend A
