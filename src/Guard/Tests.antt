-- ===== src/Guard/Tests.antt =====
-- Browsers at the door: nobody, and an admin.
use emailjachai.Common.{◌≡◌, refl, String, true, some, [], ◌∷◌}
use emailjachai.Session.{Jar, Claims, session, role_of, Env, find_cookie, read, verify_user}
use emailjachai.Session.Token.{
  plain_jwt, verify_plain, scan, read_on, kind, id_of, rebuild, within, write,
}
use emailjachai.Guard.{
  redirect, page, guard_user, admit_user, route, proxy, admin_pages, redirect-proxy,
}

abbrev env : Env
env = record { now = 100; is_prod = true }

abbrev token : String
token = plain_jwt.sign (session 1 "admin") 0 200

abbrev admin_jar : Jar
admin_jar =
    (
      "auth_token",
      record {
        value = token;
        http_only = true;
        secure = true;
        same_site = "lax";
        expires = 200;
        path = "/";
      },
    )
    ∷ []

users_page : proxy plain_jwt env admin_jar "/admin/users" ≡ page "/admin/users"
unfolding proxy route admit_user guard_user verify_user read find_cookie verify_plain scan read_on
    kind id_of rebuild within write
users_page = refl

jobs_page : proxy plain_jwt env admin_jar "/dashboard/jobs" ≡ page "/dashboard/jobs"
unfolding proxy route admit_user guard_user verify_user read find_cookie verify_plain scan read_on
    kind id_of rebuild within write
jobs_page = refl

sent_to_login : proxy plain_jwt env [] "/admin" ≡ redirect "/login"
unfolding proxy route admit_user guard_user verify_user read find_cookie
sent_to_login = refl

admin_pages_example :
    (c : Claims) × (guard_user plain_jwt env admin_jar ≡ some c) × (role_of c ≡ "admin")
admin_pages_example =
    admin_pages plain_jwt env admin_jar "/admin/users" "/admin/users" refl users_page

redirect-proxy_example : proxy plain_jwt env [] "/login" ≡ page "/login"
redirect-proxy_example = redirect-proxy plain_jwt env [] "/admin" "/login" sent_to_login
