-- ===== src/Guard.antt =====
-- frontend/proxy.ts: which pages a browser gets, before they are rendered.
mod Tests
use emailjachai.Common.{
  ℕ, ◌≡◌, ◌≢◌, refl, sym, subst, ap, ◌∙◌, String, Bool, true, false, not, ◌&&◌, ◌||◌, ◌⊎◌, inl, inr,
  Option, none, some, List, [], ◌∷◌, arith, eq_iff, str_eq, any, if◌then◌else◌, Bool-cases,
  Option-cases,
}
use emailjachai.Common.Text.{codes, starts_with}
use emailjachai.Session.{Claims, role_of, Jwt, Env, Jar, read, truthy, verify_user}

-- A redirection to another page, or the page, with the path that is written into `x-pathname`.
pub data Outcome : Type 0 where
  redirect : String → Outcome
  page : (pathname : String) → Outcome

unfoldable pub guard_user : Jwt → Env → Jar → Option Claims
guard_user jwt env jar = elim (truthy (read env.now "auth_token" jar)) [
  | none ↦ none
  | some token ↦ verify_user jwt env (some token) jar
]

abbrev pub under : String → String → Bool
under prefix path = starts_with (codes path) (codes prefix)

abbrev pub admits : Option Claims → String → Outcome
admits none path = redirect "/login"
admits (some c) path = if str_eq (role_of c) "admin" then page path else redirect "/dashboard"

abbrev pub is_signed_in : Option Claims → Bool
is_signed_in none = false
is_signed_in (some c) = true

-- The checks after the one of the admin pages.
unfoldable pub admit_user : Option Claims → String → Outcome
admit_user user path =
    if under "/dashboard" path && not (is_signed_in user)
    then redirect "/login"
    else if is_signed_in user && (str_eq path "/login" || str_eq path "/register")
    then redirect "/dashboard"
    else page path

-- An admin on an admin page goes on to the later checks.
abbrev pub admit_admin : Option Claims → String → Outcome
admit_admin user path = elim (admits user path) [
  | redirect target ↦ redirect target
  | page p ↦ admit_user user path
]

unfoldable pub route : Option Claims → String → Outcome
route user path = if under "/admin" path then admit_admin user path else admit_user user path

unfoldable pub proxy : Jwt → Env → Jar → String → Outcome
unfolding route
proxy jwt env jar path = route (guard_user jwt env jar) path

route_admin :
    (user : Option Claims) (path p : String)
    → under "/admin" path ≡ true
    → route user path ≡ page p
    → (c : Claims) × (user ≡ some c) × (role_of c ≡ "admin")
unfolding route
route_admin none path p u h = absurd (ground arith)
route_admin (some c) path p u h = elim (Bool-cases (str_eq (role_of c) "admin")) [
  | inl e ↦ (c, refl, (eq_iff (role_of c) "admin").0 e)
  | inr n ↦ absurd (ground arith)
]

-- The pages of an admin are given only to a token that is verified with the role `admin`.
pub admin_pages :
    (jwt : Jwt) (env : Env) (jar : Jar) (path p : String)
    → under "/admin" path ≡ true
    → proxy jwt env jar path ≡ page p
    → (c : Claims) × (guard_user jwt env jar ≡ some c) × (role_of c ≡ "admin")
unfolding proxy
admin_pages jwt env jar path p u h = route_admin (guard_user jwt env jar) path p u h

route_dashboard :
    (user : Option Claims) (path p : String)
    → under "/dashboard" path ≡ true
    → route user path ≡ page p
    → (c : Claims) × (user ≡ some c)
unfolding route admit_user
route_dashboard none path p u h = absurd (ground arith)
route_dashboard (some c) path p u h = (c, refl)

-- The pages of the dashboard are given only to a token that is verified.
pub dashboard_pages :
    (jwt : Jwt) (env : Env) (jar : Jar) (path p : String)
    → under "/dashboard" path ≡ true
    → proxy jwt env jar path ≡ page p
    → (c : Claims) × (guard_user jwt env jar ≡ some c)
unfolding proxy
dashboard_pages jwt env jar path p u h = route_dashboard (guard_user jwt env jar) path p u h

signed_in_rest : String → (dashboard entry : Bool) → Outcome
signed_in_rest path dashboard entry =
    if dashboard && not true
    then redirect "/login"
    else if true && entry
    then redirect "/dashboard"
    else page path

signed_in_rest_target :
    (path target : String) (dashboard entry : Bool)
    → signed_in_rest path dashboard entry ≡ redirect target
    → target ≡ "/dashboard"
unfolding signed_in_rest
signed_in_rest_target path target true true h = cc
signed_in_rest_target path target true false h = cc
signed_in_rest_target path target false true h = cc
signed_in_rest_target path target false false h = cc

-- A signed-in browser is only ever sent to the dashboard, whatever the four tests say.
signed_in_target :
    (path target : String) (admin_page admin dashboard entry : Bool)
    → (if admin_page
        then elim (if admin then page path else redirect "/dashboard") [
          | redirect t ↦ redirect t
          | page p ↦ signed_in_rest path dashboard entry
        ]
        else signed_in_rest path dashboard entry)
      ≡ redirect target
    → target ≡ "/dashboard"
signed_in_target path target true true d e h = signed_in_rest_target path target d e h
signed_in_target path target true false d e h = cc
signed_in_target path target false a d e h = signed_in_rest_target path target d e h

route_target :
    (user : Option Claims) (path target : String)
    → route user path ≡ redirect target
    → target ≡ (if is_signed_in user then "/dashboard" else "/login")
unfolding route admit_user signed_in_rest
route_target none path target h = ground arith
route_target (some c) path target h =
    signed_in_target path target (under "/admin" path) (str_eq (role_of c) "admin")
      (under "/dashboard" path) (str_eq path "/login" || str_eq path "/register") h

route_there :
    (user : Option Claims)
    → route user (if is_signed_in user then "/dashboard" else "/login")
      ≡ page (if is_signed_in user then "/dashboard" else "/login")
unfolding route admit_user
route_there none = refl
route_there (some c) = refl

-- No redirection loops: the page that a redirection leads to is given to the same browser at once.
pub redirect-proxy :
    (jwt : Jwt) (env : Env) (jar : Jar) (path target : String)
    → proxy jwt env jar path ≡ redirect target
    → proxy jwt env jar target ≡ page target
unfolding proxy
redirect-proxy jwt env jar path target h =
    subst (λ t. route (guard_user jwt env jar) t ≡ page t)
      (sym (route_target (guard_user jwt env jar) path target h))
      (route_there (guard_user jwt env jar))
