-- ===== src/Session/Return.antt =====
-- The way back from an impersonation: within its twenty minutes, and after them.
use emailjachai.Common.{
  ℕ, ◌+◌, ◌<◌, ◌≤◌, ◌≡◌, refl, ap, ◌∙◌, String, true, false, Option, none, some, arith, str_eq, ltb,
  if◌then◌else◌,
}
use emailjachai.Common.Text.{nullish, text_or}
use emailjachai.Session.{
  Jar, read, session, Jwt, Env, session_max_age_sec, set_for, clear, authorize_user, verify_user,
}
use emailjachai.Session.Reading.{read-set_for, read-clear, read-auth_token, verify_user_of_read}
use emailjachai.Session.Routes.{
  BackendUser, session_user, week_sec, return_to_admin, clear_session, logout, impersonation_sec,
  take_over,
}
use emailjachai.Session.Impersonation.{Holds, truthy_of_Holds}

-- The admin's own session: a token and a key, and no impersonation under way.
pub record IsAdminJar (now : ℕ) (jar : Jar) (token key : String) : Type 0 where
  pub has_token : Holds now jar "auth_token" token
  pub has_key : Holds now jar "user_api_key" key
  pub no_token : read now "admin_impersonator_token" jar ≡ none
  pub no_key : read now "admin_impersonator_api_key" jar ≡ none

module _ (jwt : Jwt) (env : Env) (u : BackendUser) (k : Option String) (jar : Jar)
    (token key : String) (a : IsAdminJar env.now jar token key) where
  abbrev target_jar : Jar
  target_jar =
      set_for env "user_api_key" (nullish k "") impersonation_sec
        (authorize_user jwt env (session_user u) none jar)

  abbrev both_kept : Jar
  both_kept =
      set_for env "admin_impersonator_api_key" key impersonation_sec
        (set_for env "admin_impersonator_token" token impersonation_sec target_jar)

  take_over_kept : take_over jwt env u k jar ≡ both_kept
  unfolding take_over
  take_over_kept =
      rw
        (
          truthy_of_Holds env.now jar "auth_token" token a.has_token,
          truthy_of_Holds env.now jar "user_api_key" key a.has_key,
          a.no_token,
          a.no_key,
        )
        refl

  kept_token :
      (t : ℕ)
      → read t "admin_impersonator_token" (take_over jwt env u k jar)
        ≡ (if ltb t (env.now + impersonation_sec) then some token else none)
  kept_token t =
      ap (read t "admin_impersonator_token") take_over_kept
      ∙ read-set_for env t "admin_impersonator_api_key" "admin_impersonator_token" key _ _
      ∙ read-set_for env t "admin_impersonator_token" "admin_impersonator_token" token _ _

  kept_key :
      (t : ℕ)
      → read t "admin_impersonator_api_key" (take_over jwt env u k jar)
        ≡ (if ltb t (env.now + impersonation_sec) then some key else none)
  kept_key t =
      ap (read t "admin_impersonator_api_key") take_over_kept
      ∙ read-set_for env t "admin_impersonator_api_key" "admin_impersonator_api_key" key _ _

  taken_token :
      (t : ℕ)
      → t < env.now + session_max_age_sec
      → read t "auth_token" (take_over jwt env u k jar)
        ≡ some (jwt.sign (session u.id (text_or u.role "user")) env.now session_max_age_sec)
  taken_token t h =
      ap (read t "auth_token") take_over_kept
      ∙ read-set_for env t "admin_impersonator_api_key" "auth_token" key _ _
      ∙ read-set_for env t "admin_impersonator_token" "auth_token" token _ _
      ∙ read-set_for env t "user_api_key" "auth_token" _ _ _
      ∙ read-auth_token jwt env t (session_user u) none jar h

  taken_key :
      (t : ℕ)
      → read t "user_api_key" (take_over jwt env u k jar)
        ≡ (if ltb t (env.now + impersonation_sec) then some (nullish k "") else none)
  taken_key t =
      ap (read t "user_api_key") take_over_kept
      ∙ read-set_for env t "admin_impersonator_api_key" "user_api_key" key _ _
      ∙ read-set_for env t "admin_impersonator_token" "user_api_key" token _ _
      ∙ read-set_for env t "user_api_key" "user_api_key" _ _ _

-- What a return leaves.
reads_after_return :
    (env : Env) (token key : String) (jar : Jar) (t : ℕ)
    → t < env.now + week_sec
    → (read t "auth_token" (return_to_admin env token (some key) jar) ≡ some token)
      × (read t "user_api_key" (return_to_admin env token (some key) jar) ≡ some key)
      × (read t "admin_impersonator_token" (return_to_admin env token (some key) jar) ≡ none)
      × (read t "admin_impersonator_api_key" (return_to_admin env token (some key) jar) ≡ none)
unfolding return_to_admin
reads_after_return env token key jar t h = (
  read-clear env t "admin_impersonator_api_key" "auth_token" _
      ∙ read-clear env t "admin_impersonator_token" "auth_token" _
      ∙ read-set_for env t "user_api_key" "auth_token" key _ _
      ∙ read-set_for env t "auth_token" "auth_token" token _ jar
      ∙ ground arith,
  read-clear env t "admin_impersonator_api_key" "user_api_key" _
      ∙ read-clear env t "admin_impersonator_token" "user_api_key" _
      ∙ read-set_for env t "user_api_key" "user_api_key" key _ _
      ∙ ground arith,
  read-clear env t "admin_impersonator_api_key" "admin_impersonator_token" _
      ∙ read-clear env t "admin_impersonator_token" "admin_impersonator_token" _,
  read-clear env t "admin_impersonator_api_key" "admin_impersonator_api_key" _,
)

logout_returns :
    (env : Env) (jar : Jar) (token key : String)
    → Holds env.now jar "admin_impersonator_token" token
    → Holds env.now jar "admin_impersonator_api_key" key
    → logout env jar ≡ (true, return_to_admin env token (some key) jar)
unfolding logout
logout_returns env jar token key ht hk =
    rw
      (
        truthy_of_Holds env.now jar "admin_impersonator_token" token ht,
        logout,
        truthy_of_Holds env.now jar "admin_impersonator_api_key" key hk,
      )
      refl

-- A logout within twenty minutes of an impersonation gives the admin back the token and the key of
-- before, readable for a week, clears the two cookies that kept them, and says that the browser is an
-- admin again. (No impersonation was under way before.)
pub logout-take_over :
    (jwt : Jwt) (env later : Env) (u : BackendUser) (k : Option String) (jar : Jar)
    (token key : String) (t : ℕ)
    → IsAdminJar env.now jar token key
    → later.now < env.now + impersonation_sec
    → t < later.now + week_sec
    → ((logout later (take_over jwt env u k jar)).0 ≡ true)
      × (read t "auth_token" (logout later (take_over jwt env u k jar)).1 ≡ some token)
      × (read t "user_api_key" (logout later (take_over jwt env u k jar)).1 ≡ some key)
      × (read t "admin_impersonator_token" (logout later (take_over jwt env u k jar)).1 ≡ none)
      × (read t "admin_impersonator_api_key" (logout later (take_over jwt env u k jar)).1 ≡ none)
logout-take_over jwt env later u k jar token key t a soon h =
    rw
      (logout_returns later (take_over jwt env u k jar) token key
        (kept_token jwt env u k jar token key a later.now ∙ ground arith, a.has_token.1)
        (kept_key jwt env u k jar token key a later.now ∙ ground arith, a.has_key.1))
      (let (p, q, r, s) = reads_after_return later token key (take_over jwt env u k jar) t h in
        (refl, p, q, r, s))

-- After the twenty minutes the way back is lost while the session is not: for the rest of the day the
-- cookies are still verified as the other user, no key can be read, and a logout is an ordinary one,
-- which does not return to the admin.
pub impersonation_lapses :
    (jwt : Jwt) (env later : Env) (u : BackendUser) (k : Option String) (jar : Jar)
    (token key : String)
    → IsAdminJar env.now jar token key
    → env.now + impersonation_sec ≤ later.now
    → later.now < env.now + session_max_age_sec
    → (verify_user jwt later none (take_over jwt env u k jar)
        ≡ some (session u.id (text_or u.role "user")))
      × (read later.now "user_api_key" (take_over jwt env u k jar) ≡ none)
      × ((logout later (take_over jwt env u k jar)).0 ≡ false)
unfolding logout
impersonation_lapses jwt env later u k jar token key a late day = (
  verify_user_of_read jwt later (session u.id (text_or u.role "user")) env.now session_max_age_sec
      (take_over jwt env u k jar) day (taken_token jwt env u k jar token key a later.now day),
  taken_key jwt env u k jar token key a later.now ∙ ground arith,
  rw (gone, logout) refl,
)
  where
    gone : read later.now "admin_impersonator_token" (take_over jwt env u k jar) ≡ none
    gone = kept_token jwt env u k jar token key a later.now ∙ ground arith

read-clear_session :
    (env : Env) (t : ℕ) (m : String) (jar : Jar)
    → str_eq "user_role" m ≡ false
    → read t m (clear_session env jar) ≡ (
        if str_eq "admin_impersonator_api_key" m
        then none
        else if str_eq "admin_impersonator_token" m
        then none
        else if str_eq "user_api_key" m
        then none
        else if str_eq "auth_token" m
        then none
        else read t m jar)
unfolding clear_session
read-clear_session env t m jar h = ground (
  arith,
  read-clear env t "admin_impersonator_api_key" m (
      clear env "admin_impersonator_token"
        (clear env "user_api_key" (clear env "user_role" (clear env "auth_token" jar)))),
  read-clear env t "admin_impersonator_token" m
      (clear env "user_api_key" (clear env "user_role" (clear env "auth_token" jar))),
  read-clear env t "user_api_key" m (clear env "user_role" (clear env "auth_token" jar)),
  read-clear env t "user_role" m (clear env "auth_token" jar),
  read-clear env t "auth_token" m jar,
)

logout_plain :
    (env : Env) (jar : Jar)
    → read env.now "admin_impersonator_token" jar ≡ none
    → logout env jar ≡ (false, clear_session env jar)
unfolding logout
logout_plain env jar h = rw (h, logout) refl

nobody_verified :
    (jwt : Jwt) (env : Env) (jar : Jar)
    → read env.now "auth_token" jar ≡ none
    → verify_user jwt env none jar ≡ none
unfolding verify_user
nobody_verified jwt env jar h = rw (h, verify_user) refl

-- An ordinary logout, with no impersonation under way, leaves nobody verified, at any time, and no key,
-- and the next logout is an ordinary one too.
pub logout_ends_session :
    (jwt : Jwt) (env later : Env) (jar : Jar)
    → read env.now "admin_impersonator_token" jar ≡ none
    → (verify_user jwt later none (logout env jar).1 ≡ none)
      × (read later.now "user_api_key" (logout env jar).1 ≡ none)
      × ((logout later (logout env jar).1).0 ≡ false)
logout_ends_session jwt env later jar h = rw (logout_plain env jar h) (
  nobody_verified jwt later (clear_session env jar)
      (read-clear_session env later.now "auth_token" jar refl ∙ refl),
  read-clear_session env later.now "user_api_key" jar refl ∙ refl,
  ap (λ r. r.0)
      (logout_plain later (clear_session env jar)
        (read-clear_session env later.now "admin_impersonator_token" jar refl ∙ refl)),
)
