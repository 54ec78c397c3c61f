-- ===== src/Session/Login.antt =====
-- What a login leaves behind.
use emailjachai.Common.{
  ◌+◌, ◌<◌, ◌≡◌, refl, sym, subst, String, Bool, true, false, not, ◌&&◌, ◌||◌, if◌then◌else◌,
  Option, none, some, arith, ◌⊎◌, inl, inr, Bool-cases, Option-cases,
}
use emailjachai.Common.Text.{text_or}
use emailjachai.Http.Headers.{Headers}
use emailjachai.Session.{
  Jar, session, Jwt, Env, session_max_age_sec, authorize_user, verify_user, is_ok, Answer, Request,
  Backend, unreachable, answered,
}
use emailjachai.Session.Reading.{read-auth_token, verify_user_of_read}
use emailjachai.Session.Routes.{
  Credentials, BackendUser, Granted, LoggedIn, given, refuse, send, Plan-cases, plan_login,
  session_user, grant_login, finish_login, login,
}

-- At a later moment the jar's owner is verified as the user, with the role `user` where none is named.
abbrev pub SignsIn : Jwt → Env → BackendUser → Jar → Type 0
SignsIn jwt later u jar =
    verify_user jwt later none jar ≡ some (session u.id (text_or u.role "user"))

authorize_user-SignsIn :
    (jwt : Jwt) (env later : Env) (u : BackendUser) (key : Option String) (jar : Jar)
    → later.now < env.now + session_max_age_sec
    → SignsIn jwt later u (authorize_user jwt env (session_user u) key jar)
authorize_user-SignsIn jwt env later u key jar h =
    verify_user_of_read jwt later (session u.id (text_or u.role "user")) env.now session_max_age_sec
      (authorize_user jwt env (session_user u) key jar) h
      (read-auth_token jwt env later.now (session_user u) key jar h)

abbrev pub user_of : Option Granted → Option BackendUser
user_of none = none
user_of (some g) = g.user

-- The user for whom the backend's answer grants a request.
abbrev pub granted_user : Backend Granted → Option BackendUser
granted_user unreachable = none
granted_user (answered status is_error message body) =
    if is_error || not (is_ok status) then none else user_of body

-- A success for the user that the backend granted, or else a refusal that leaves the jar.
abbrev pub LoginResult : Jwt → Env → Jar → Option BackendUser → Answer LoggedIn × Jar → Type 0
LoginResult jwt later jar none r = (r.0.success ≡ false) × (r.1 ≡ jar)
LoginResult jwt later jar (some u) r = (r.0.success ≡ true) × SignsIn jwt later u r.1

granted_jar :
    (jwt : Jwt) (env : Env) (g : Granted) (jar : Jar) (u : BackendUser)
    → g.user ≡ some u
    → (grant_login jwt env (some g) jar).1 ≡ authorize_user jwt env (session_user u) g.api_key jar
unfolding grant_login
granted_jar jwt env g jar u e = rw (e, grant_login) refl

grant_login-LoginResult :
    (jwt : Jwt) (env later : Env) (body : Option Granted) (jar : Jar)
    → later.now < env.now + session_max_age_sec
    → LoginResult jwt later jar (user_of body) (grant_login jwt env body jar)
unfolding grant_login
grant_login-LoginResult jwt env later none jar h = (refl, refl)
grant_login-LoginResult jwt env later (some g) jar h = elim (Option-cases g.user) [
  | inl e ↦
      subst (λ o. LoginResult jwt later jar o (grant_login jwt env (some g) jar)) (sym e)
        (rw (e, grant_login) refl, rw (e, grant_login) refl)
  | inr (u, e) ↦
      subst (λ o. LoginResult jwt later jar o (grant_login jwt env (some g) jar)) (sym e)
        (
          rw (e, grant_login) refl,
          subst (SignsIn jwt later u) (sym (granted_jar jwt env g jar u e))
              (authorize_user-SignsIn jwt env later u g.api_key jar h),
        )
]

finish_login-LoginResult :
    (jwt : Jwt) (env later : Env) (b : Backend Granted) (jar : Jar)
    → later.now < env.now + session_max_age_sec
    → LoginResult jwt later jar (granted_user b) (finish_login jwt env b jar)
unfolding finish_login
finish_login-LoginResult jwt env later unreachable jar h = (refl, refl)
finish_login-LoginResult jwt env later (answered status true message body) jar h = (refl, refl)
finish_login-LoginResult jwt env later (answered status false message body) jar h =
    elim (Bool-cases (is_ok status)) [
      | inl ok ↦ rw (ok, finish_login) (grant_login-LoginResult jwt env later body jar h)
      | inr bad ↦ rw (bad, finish_login) (refl, refl)
    ]

-- Whether both fields of a login are there and not empty.
abbrev pub has_both : Option Credentials → Bool
has_both none = false
has_both (some c) = given c.email && given c.password

plan_login_refused :
    (body : Option Credentials) (source : Headers) (a : Answer LoggedIn)
    → plan_login body source ≡ refuse a
    → (has_both body ≡ false) × (a.success ≡ false)
unfolding plan_login
plan_login_refused none source a e = (refl, ground arith)
plan_login_refused (some c) source a e = (ground arith, ground arith)

plan_login_sent :
    (body : Option Credentials) (source : Headers) (r : Request Credentials)
    → plan_login body source ≡ send r
    → (has_both body ≡ true) × (body ≡ some r.body) × (r.path ≡ "/auth/login")
unfolding plan_login
plan_login_sent none source r e = absurd (cc e)
plan_login_sent (some c) source r e = (ground arith, ground arith, ground arith)

-- A login that lacks the email or the password is refused, and the cookies stay. One that has both goes
-- to the backend's login as it is, and the backend's answer decides: where it grants no user the login fails and the cookies stay; where it grants one the
-- login succeeds, and at any moment of the next day `verifyUser` finds that user, in the role that the
-- backend named or else `user`.
pub login_lem :
    (jwt : Jwt) (env later : Env) (backend : Request Credentials → Backend Granted)
    (body : Option Credentials) (source : Headers) (jar : Jar)
    → later.now < env.now + session_max_age_sec
    → ((has_both body ≡ false)
        × ((login jwt env backend body source jar).0.success ≡ false)
        × ((login jwt env backend body source jar).1 ≡ jar))
      ⊎ ((r : Request Credentials) × (plan_login body source ≡ send r)
          × (has_both body ≡ true)
          × (body ≡ some r.body)
          × (r.path ≡ "/auth/login")
          × LoginResult jwt later jar
              (granted_user (backend r))
              (login jwt env backend body source jar))
unfolding login
login_lem jwt env later backend body source jar h = elim (Plan-cases (plan_login body source)) [
  | inl (a, e) ↦
      let (lacks, failed) = plan_login_refused body source a e in
      rw (e, login) (inl (lacks, failed, refl))
  | inr (r, e) ↦
      let (both, same, path) = plan_login_sent body source r e in
      rw (e, login)
        (inr (r, refl, both, same, path, finish_login-LoginResult jwt env later (backend r) jar h))
]
