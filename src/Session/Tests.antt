-- ===== src/Session/Tests.antt =====
-- The session routes under a concrete token scheme.
use emailjachai.Common.{
  ℕ, ◌&&◌, ◌<◌, ◌≡◌, refl, String, true, false, none, some, [], ◌∷◌, ◌⊎◌, arith, eq_iff,
}
use emailjachai.Http.Headers.{empty}
use emailjachai.Session.{
  failure, Cookie, Jar, find_cookie, set_cookie, read, Claims, session, role_of, set_for,
  verify_user, Request, Backend, answered,
}
use emailjachai.Session.Token.{
  plain_jwt, verify_plain, scan, read_on, kind, id_of, rebuild, within, write,
}
use emailjachai.Session.Sockets.{at_time, holding, round_at, renewed, renewed_lem}
use emailjachai.Session.Gates.{upload_headers, plan_upload}
use emailjachai.Session.Routes.{
  given, is_admin, Credentials, BackendUser, Granted, send, plan_login, login, logout, is_admin,
  take_over, plan_impersonate, impersonate,
}
use emailjachai.Session.Login.{has_both, LoginResult, login_lem}
use emailjachai.Session.Impersonation.{Holds, names_user, TakesOver, impersonate_lem}
use emailjachai.Session.Return.{IsAdminJar, logout-take_over, impersonation_lapses}

abbrev ann : BackendUser
ann = record { id = 7; name = "Ann"; email = "ann@example.org"; role = none }

abbrev granted_answer : Backend Granted
granted_answer = answered 200 false none (some (record { user = some ann; api_key = some "key" }))

abbrev credentials : Credentials
credentials = record { email = some "ann@example.org"; password = some "pw" }

login_lem_example :
    ((has_both (some credentials) ≡ false)
      × ((login plain_jwt (at_time 100) (λ _. granted_answer) (some credentials) empty []).0.success
          ≡ false)
      × ((login plain_jwt (at_time 100) (λ _. granted_answer) (some credentials) empty []).1 ≡ []))
    ⊎ ((r : Request Credentials) × (plan_login (some credentials) empty ≡ send r)
        × (has_both (some credentials) ≡ true)
        × (some credentials ≡ some r.body)
        × (r.path ≡ "/auth/login")
        × LoginResult plain_jwt
            (at_time 200)
            []
            (some ann)
            (login plain_jwt (at_time 100) (λ _. granted_answer) (some credentials) empty []))
login_lem_example =
    login_lem plain_jwt (at_time 100) (at_time 200) (λ _. granted_answer) (some credentials) empty
      [] (omega arith)

abbrev admin_cookie : String → Cookie
admin_cookie v = record {
  value = v;
  http_only = true;
  secure = true;
  same_site = "lax";
  expires = 90000;
  path = "/";
}

abbrev admin_token : String
admin_token = plain_jwt.sign (session 1 "admin") 0 90000

abbrev admin_jar : Jar
admin_jar =
    ("auth_token", admin_cookie admin_token) ∷ ("user_api_key", admin_cookie "admin-key") ∷ []

impersonate_lem_example :
    ((is_admin (verify_user plain_jwt (at_time 100) none admin_jar) ≡ false)
      × (impersonate plain_jwt (at_time 100) (λ _. granted_answer) (some (some 7)) empty admin_jar
          ≡ (failure 403 "Unauthorized. Admin privileges required.", admin_jar)))
    ⊎ ((is_admin (verify_user plain_jwt (at_time 100) none admin_jar) ≡ true)
        × (names_user (some (some 7)) && given (read 100 "user_api_key" admin_jar) ≡ false)
        × ((impersonate plain_jwt
              (at_time 100)
              (λ _. granted_answer)
              (some (some 7))
              empty
              admin_jar).0.success
            ≡ false)
        × ((impersonate plain_jwt
              (at_time 100)
              (λ _. granted_answer)
              (some (some 7))
              empty
              admin_jar).1
            ≡ admin_jar))
    ⊎ ((r : Request ℕ) × (plan_impersonate plain_jwt (at_time 100) (some (some 7)) empty admin_jar
          ≡ send r)
        × (is_admin (verify_user plain_jwt (at_time 100) none admin_jar) ≡ true)
        × ((key : String) × Holds 100 admin_jar "user_api_key" key)
        × (some (some 7) ≡ some (some r.body))
        × (0 < r.body)
        × (r.path ≡ "/admin/impersonate")
        × TakesOver plain_jwt (at_time 100) admin_jar (some (ann, some "key")) (
            impersonate plain_jwt
              (at_time 100)
              (λ _. granted_answer)
              (some (some 7))
              empty
              admin_jar))
impersonate_lem_example =
    impersonate_lem plain_jwt (at_time 100) (λ _. granted_answer) (some (some 7)) empty admin_jar

admin_jar-IsAdminJar : IsAdminJar 100 admin_jar admin_token "admin-key"
unfolding read find_cookie
admin_jar-IsAdminJar = record {
  has_token = (refl, plain_jwt.sign-ne-empty (session 1 "admin") 0 90000);
  has_key = (refl, λ e. ground (arith, eq_iff "admin-key" ""));
  no_token = refl;
  no_key = refl;
}

abbrev taken : Jar
taken = take_over plain_jwt (at_time 100) ann (some "key") admin_jar

logout-take_over_example :
    ((logout (at_time 200) taken).0 ≡ true)
    × (read 300 "auth_token" (logout (at_time 200) taken).1 ≡ some admin_token)
    × (read 300 "user_api_key" (logout (at_time 200) taken).1 ≡ some "admin-key")
    × (read 300 "admin_impersonator_token" (logout (at_time 200) taken).1 ≡ none)
    × (read 300 "admin_impersonator_api_key" (logout (at_time 200) taken).1 ≡ none)
logout-take_over_example =
    logout-take_over plain_jwt (at_time 100) (at_time 200) ann (some "key") admin_jar admin_token
      "admin-key" 300 admin_jar-IsAdminJar (omega arith) (omega arith)

impersonation_lapses_example :
    (verify_user plain_jwt (at_time 2000) none taken ≡ some (session 7 "user"))
    × (read 2000 "user_api_key" taken ≡ none)
    × ((logout (at_time 2000) taken).0 ≡ false)
impersonation_lapses_example =
    impersonation_lapses plain_jwt (at_time 100) (at_time 2000) ann (some "key") admin_jar
      admin_token "admin-key" admin_jar-IsAdminJar (omega arith) (omega arith)

abbrev short_token : String
short_token = plain_jwt.sign (session 1 "admin") 0 200

short_verified :
    verify_user plain_jwt (at_time 100) none (holding 100 short_token) ≡ some (session 1 "admin")
unfolding verify_user read find_cookie set_for verify_plain scan read_on kind id_of rebuild within
    write
short_verified = refl

renewed_lem_example :
    (d : Claims) × (verify_user plain_jwt
        (at_time (round_at 100 1000))
        none
        (holding (round_at 100 1000) (renewed plain_jwt 100 short_token 1000))
      ≡ some d)
    × (role_of d ≡ "admin")
renewed_lem_example = renewed_lem plain_jwt 100 short_token (session 1 "admin") 1000 short_verified

abbrev with_key : Jar
with_key = set_for (at_time 100) "user_api_key" "key" 60 (holding 100 short_token)

abbrev upload : Request (Unit {0})
upload = record { path = "/jobs/submit-file"; headers = upload_headers 5 "key" empty; body = tt }

upload_sent : plan_upload {A = String} plain_jwt (at_time 100) 5 empty with_key ≡ send upload
unfolding plan_upload verify_user read find_cookie set_cookie set_for verify_plain scan read_on kind
    id_of rebuild within write
upload_sent = refl
