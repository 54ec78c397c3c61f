-- ===== src/Session/Reading.antt =====
-- What a cookie reads after others were written, and who is verified after an authorization.
use emailjachai.Common.{
  ℕ, ◌+◌, ◌<◌, ◌≡◌, ◌≢◌, refl, ◌∙◌, String, true, false, Option, none, some, arith, str_eq,
  str_eq-false, ltb, if◌then◌else◌,
}
use emailjachai.Session.{
  Jar, read, find-set_cookie, Claims, session, Jwt, Env, SessionUser, session_max_age_sec, set_for,
  clear, truthy, set_key_for, authorize_user, verify_user,
}

pub read-set_for :
    (env : Env) (t : ℕ) (n m v : String) (age : ℕ) (jar : Jar)
    → read t m (set_for env n v age jar)
      ≡ (if str_eq n m then (if ltb t (env.now + age) then some v else none) else read t m jar)
unfolding read set_for
read-set_for env t n m v age jar = ground (
  arith,
  find-set_cookie n m
      (record {
        value = v;
        http_only = true;
        secure = env.is_prod;
        same_site = "lax";
        expires = env.now + age;
        path = "/";
      })
      jar,
)

pub read-clear :
    (env : Env) (t : ℕ) (n m : String) (jar : Jar)
    → read t m (clear env n jar) ≡ (if str_eq n m then none else read t m jar)
unfolding read clear
read-clear env t n m jar = ground (
  arith,
  find-set_cookie n m
      (record {
        value = "";
        http_only = true;
        secure = env.is_prod;
        same_site = "lax";
        expires = 0;
        path = "/";
      })
      jar,
)

pub truthy_of_ne : (s : String) → s ≢ "" → truthy (some s) ≡ some s
truthy_of_ne s h = rw (str_eq-false s "" h) refl

-- A cookie under another name than the two of an authorization reads as before.
pub read-authorize_user :
    (jwt : Jwt) (env : Env) (t : ℕ) (u : SessionUser) (key : Option String) (m : String) (jar : Jar)
    → str_eq "auth_token" m ≡ false
    → str_eq "user_api_key" m ≡ false
    → read t m (authorize_user jwt env u key jar) ≡ read t m jar
unfolding authorize_user
read-authorize_user jwt env t u key m jar h k =
    elim (truthy key)
      as (λ o.
        read t m (
          set_key_for env o (
            set_for env "auth_token" (jwt.sign (session u.id u.role) env.now session_max_age_sec)
              session_max_age_sec jar))
        ≡ read t m jar) [
          | none ↦ read-set_for env t "auth_token" m _ _ jar ∙ rw h refl
          | some v ↦
              read-set_for env t "user_api_key" m v _ _
              ∙ rw k (read-set_for env t "auth_token" m _ _ jar ∙ rw h refl)
        ]

-- The token of an authorization reads back for a day.
pub read-auth_token :
    (jwt : Jwt) (env : Env) (t : ℕ) (u : SessionUser) (key : Option String) (jar : Jar)
    → t < env.now + session_max_age_sec
    → read t "auth_token" (authorize_user jwt env u key jar)
      ≡ some (jwt.sign (session u.id u.role) env.now session_max_age_sec)
unfolding authorize_user
read-auth_token jwt env t u key jar h =
    elim (truthy key)
      as (λ o.
        read t "auth_token" (
          set_key_for env o (
            set_for env "auth_token" (jwt.sign (session u.id u.role) env.now session_max_age_sec)
              session_max_age_sec jar))
        ≡ some (jwt.sign (session u.id u.role) env.now session_max_age_sec)) [
          | none ↦ read-set_for env t "auth_token" "auth_token" _ _ jar ∙ ground arith
          | some v ↦
              read-set_for env t "user_api_key" "auth_token" v _ _
              ∙ read-set_for env t "auth_token" "auth_token" _ _ jar
              ∙ ground arith
        ]

-- Whoever's token the cookie holds is the one that is verified, for as long as the token lives.
pub verify_user_of_read :
    (jwt : Jwt) (env : Env) (c : Claims) (issued lifetime : ℕ) (jar : Jar)
    → env.now < issued + lifetime
    → read env.now "auth_token" jar ≡ some (jwt.sign c issued lifetime)
    → verify_user jwt env none jar ≡ some c
unfolding verify_user
verify_user_of_read jwt env c issued lifetime jar h e =
    rw (e, verify_user)
      (rw (str_eq-false _ "" (jwt.sign-ne-empty c issued lifetime), verify_user)
        (jwt.verify-sign c issued lifetime env.now h))
